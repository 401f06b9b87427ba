-- ===== src/Hub/Connections.antt =====
-- pool/hub.go, addConnection and removeConnection.
use eacrpool.Prelude.{ℕ, ◌+◌, ◌-◌, ◌%◌, ◌^◌, ◌<◌, ◌≡◌, arith, if◌then◌else◌}
use eacrpool.Bytes.{Bytes, equal, equal-eq}
use eacrpool.Map.{lookup-set_key}
use eacrpool.Hub.{Hub, fetch_host_connections, add_connection, remove_connection}

module _ (host : Bytes) (h : Hub) where
  pub fetch_host_connections-add_connection :
      (j : Bytes)
      → fetch_host_connections j (add_connection host h) ≡ (
          if equal host j
          then (fetch_host_connections j h + 1) % 2 ^ 32
          else fetch_host_connections j h)
  unfolding fetch_host_connections add_connection
  fetch_host_connections-add_connection j = ground (
    arith,
    lookup-set_key j host ((fetch_host_connections host h + 1) % 2 ^ 32) h.connections,
    equal-eq host j,
  )

  pub fetch_host_connections-remove_connection :
      (j : Bytes)
      → fetch_host_connections j (remove_connection host h) ≡ (
          if equal host j
          then (fetch_host_connections j h + 2 ^ 32 - 1) % 2 ^ 32
          else fetch_host_connections j h)
  unfolding fetch_host_connections remove_connection
  fetch_host_connections-remove_connection j = ground (
    arith,
    lookup-set_key j host ((fetch_host_connections host h + 2 ^ 32 - 1) % 2 ^ 32) h.connections,
    equal-eq host j,
  )

restored :
    (host : Bytes) (h : Hub) (j : Bytes)
    → fetch_host_connections j h < 2 ^ 32
    → fetch_host_connections j (remove_connection host (add_connection host h))
      ≡ fetch_host_connections j h
restored host h j word = ground (
  arith,
  fetch_host_connections-remove_connection host (add_connection host h) j,
  fetch_host_connections-add_connection host h j,
  back (fetch_host_connections j h) word,
)
  where
    back : (n : ℕ) → n < 2 ^ 32 → ((n + 1) % 2 ^ 32 + 2 ^ 32 - 1) % 2 ^ 32 ≡ n
    back n word = omega arith

-- Where the counts are words, a new connection adds one to the count of its host, modulo 2 ^ 32, and to
-- no other, and removing it brings the number of clients and every host's count back.
pub connections_balance :
    (host : Bytes) (h : Hub)
    → h.clients < 2 ^ 32
    → ((j : Bytes) → fetch_host_connections j h < 2 ^ 32)
    → ((remove_connection host (add_connection host h)).clients ≡ h.clients)
      × ((j : Bytes)
          → (fetch_host_connections j (add_connection host h) ≡ (
              if equal host j
              then (fetch_host_connections j h + 1) % 2 ^ 32
              else fetch_host_connections j h))
            × (fetch_host_connections j (remove_connection host (add_connection host h))
                ≡ fetch_host_connections j h))
unfolding add_connection remove_connection
connections_balance host h clients words = (
  omega arith,
  λ j. (fetch_host_connections-add_connection host h j, restored host h j (words j)),
)
