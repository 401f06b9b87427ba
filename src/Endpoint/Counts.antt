-- ===== src/Endpoint/Counts.antt =====
-- pool/endpoint.go: the hub's count of a host's connections against the clients of an endpoint.
use eacrpool.Bytes.{Bytes}
use eacrpool.Hub.{Hub}
use eacrpool.Endpoint.{Endpoint}
