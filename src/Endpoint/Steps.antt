-- ===== src/Endpoint/Steps.antt =====
-- pool/endpoint.go: the goroutines of an endpoint, of its clients and of other endpoints, as steps that
-- they take in any order.
use eacrpool.Prelude.{ℕ, ◌+◌, ◌-◌, ◌^◌, ◌≤◌, ◌<◌, ◌≡◌, Bool, none, some, [], if◌then◌else◌}
use eacrpool.Errors.{Result, ok}
use eacrpool.Bytes.{Bytes, equal}
use eacrpool.Bolt.{lookup}
use eacrpool.Hub.{Hub, fetch_host_connections, add_connection, remove_connection}
use eacrpool.Endpoint.{Endpoint, Peer, enter, leave, admit}
use eacrpool.Endpoint.Table.{Distinct, count}

abbrev pub is_of : Bytes → Peer → Bool
is_of host peer = equal peer.host host

-- Where the goroutine of `connect` stands: it waits for a connection, has admitted one, or has put its
-- client into the table and not counted it.
pub data Phase : Type 0 where
  idle : Phase
  admitted entered : Peer → Phase

-- `others` is the hub's count of the connections of other endpoints, and of clients that have left the
-- table.
pub record System : Type 0 where
  pub endpoint : Endpoint
  pub hub : Hub
  pub phase : Phase
  pub others : Bytes → ℕ

abbrev pub one_of : Bytes → Peer → ℕ
one_of host peer = if is_of host peer then 1 else 0

-- one for the host of a client that is not in the table, or not counted, yet
unfoldable pub waiting : Bytes → Phase → ℕ
waiting host (admitted peer) = one_of host peer
waiting host _ = 0

unfoldable pub uncounted : Bytes → Phase → ℕ
uncounted host (entered peer) = one_of host peer
uncounted host _ = 0

-- `room` is a bound of the connections elsewhere.
module _ (room : ℕ) where
  pub data Step (s : System) : System → Type 0 where
    admits :
        (host : Bytes) (random : Result Bytes) (peer : Peer)
        → s.phase ≡ idle
        → admit host random s.endpoint s.hub ≡ ok (some peer)
        → Step s (record s { phase = admitted peer })
    -- a new client's id, which is random, is new
    enters :
        (peer : Peer)
        → s.phase ≡ admitted peer
        → lookup peer.client.id s.endpoint.clients ≡ none
        → Step s (record s { endpoint = enter peer s.endpoint; phase = entered peer })
    counts :
        (peer : Peer)
        → s.phase ≡ entered peer
        → Step s (record s { hub = add_connection peer.host s.hub; phase = idle })
    -- a client runs, and may leave, once it was counted
    leaves :
        (peer : Peer)
        → lookup peer.client.id s.endpoint.clients ≡ some peer
        → ¬ (s.phase ≡ entered peer)
        → s.others peer.host < room
        → Step s (record s {
          endpoint = leave peer s.endpoint;
          others = λ host. if is_of host peer then s.others host + 1 else s.others host;
        })
    -- another endpoint counts a connection, or a client that left a table is taken off the count
    added :
        (host : Bytes)
        → s.others host < room
        → Step s (record s {
          hub = add_connection host s.hub;
          others = λ j. if equal host j then s.others j + 1 else s.others j;
        })
    removed :
        (host : Bytes)
        → 0 < s.others host
        → Step s (record s {
          hub = remove_connection host s.hub;
          others = λ j. if equal host j then s.others j - 1 else s.others j;
        })

  -- the states of a new endpoint of a pool
  pub data Reach : System → Type 0 where
    started :
        (e : Endpoint) (hub : Hub)
        → e.clients ≡ []
        → ((host : Bytes) → fetch_host_connections host hub ≤ room)
        → room + e.cfg.max_connections_per_host < 2 ^ 32
        → Reach (record {
          endpoint = e;
          hub = hub;
          phase = idle;
          others = λ host. fetch_host_connections host hub;
        })
    stepped : {s t : System} → Reach s → Step s t → Reach t

  -- The hub's count is right up to the client that is not counted yet, and the endpoint has no more
  -- clients of a host than its limit.
  pub record IsCounted (s : System) : Type 0 where
    pub distinct : Distinct s.endpoint.clients
    pub present :
        (peer : Peer)
        → s.phase ≡ entered peer
        → lookup peer.client.id s.endpoint.clients ≡ some peer
    pub counted :
        (host : Bytes)
        → fetch_host_connections host s.hub + uncounted host s.phase
          ≡ s.others host + count (is_of host) s.endpoint.clients
    pub limited :
        (host : Bytes)
        → count (is_of host) s.endpoint.clients + waiting host s.phase
          ≤ s.endpoint.cfg.max_connections_per_host
    pub roomy : (host : Bytes) → s.others host ≤ room
    pub word : room + s.endpoint.cfg.max_connections_per_host < 2 ^ 32
