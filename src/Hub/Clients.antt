-- ===== src/Hub/Clients.antt =====
-- pool/hub.go: the lists of clients for the web interface, and the pool's hash rate.
pub mod Grouped
pub mod Walks
use eacrpool.Prelude.{List, [], ◌∷◌, ◌++◌, Option, none, some, Bool, true, false, if◌then◌else◌}
use eacrpool.Bytes.{Bytes, equal}
use eacrpool.Bolt.{lookup}
use eacrpool.Map.{set_key}
use eacrpool.Rat.{Rat, zero_rat, add}
use eacrpool.Difficulty.{name}
use eacrpool.Endpoint.{Peer, Endpoint}

pub record ClientInfo : Type 0 where
  pub miner : Bytes
  pub ip : Bytes
  pub hash_rate : Rat

abbrev pub ClientInfos : Type 0
ClientInfos = List (Bytes × List ClientInfo)

-- `m[account]`
unfoldable pub infos_of : Bytes → ClientInfos → List ClientInfo
infos_of account m = elim (lookup account m) [ none ↦ [] | some l ↦ l ]

-- `m[account] = append(m[account], info)`
unfoldable pub append_info : Bytes → ClientInfo → ClientInfos → ClientInfos
unfolding infos_of
append_info account info m = set_key account (infos_of account m ++ info ∷ []) m

-- `address` is the text of a client's address. The list of an endpoint's clients is in the order in which
-- the loop walks the map, which may be another one in each loop.
module _ (address : Peer → Bytes) where
  unfoldable pub client_info : Bytes → Peer → ClientInfo
  client_info miner peer = record {
    miner = miner;
    ip = address peer;
    hash_rate = peer.client.hash_rate;
  }

  -- the loop over an endpoint's clients
  unfoldable pub info_loop : Bytes → List (Bytes × Peer) → ClientInfos → ClientInfos
  unfolding append_info client_info
  info_loop miner [] m = m
  info_loop miner ((id, peer) ∷ rest) m =
      info_loop miner rest (append_info peer.client.account (client_info miner peer) m)

  unfoldable pub endpoint_loop : List Endpoint → ClientInfos → ClientInfos
  unfolding info_loop
  endpoint_loop [] m = m
  endpoint_loop (e ∷ rest) m = endpoint_loop rest (info_loop (name e.miner) e.clients m)

  unfoldable pub fetch_client_info : List Endpoint → ClientInfos
  unfolding endpoint_loop
  fetch_client_info endpoints = endpoint_loop endpoints []

  -- the clients of one account among those of an endpoint
  unfoldable pub account_infos : Bytes → Bytes → List (Bytes × Peer) → List ClientInfo
  unfolding client_info
  account_infos account miner [] = []
  account_infos account miner ((id, peer) ∷ rest) =
      let infos = account_infos account miner rest in
      if equal peer.client.account account then client_info miner peer ∷ infos else infos

  unfoldable pub fetch_account_client_info : Bytes → List Endpoint → List ClientInfo
  unfolding account_infos
  fetch_account_client_info account [] = []
  fetch_account_client_info account (e ∷ rest) =
      account_infos account (name e.miner) e.clients ++ fetch_account_client_info account rest

-- the inner loop of FetchPoolHashRate
unfoldable pub add_rates : List ClientInfo → Rat → Rat
add_rates [] rate = rate
add_rates (info ∷ rest) rate = add_rates rest (add rate info.hash_rate)

unfoldable pub rate_loop : ClientInfos → Rat → Rat
unfolding add_rates
rate_loop [] rate = rate
rate_loop ((account, infos) ∷ rest) rate = rate_loop rest (add_rates infos rate)

-- `walk` gives the order in which the loop over the accounts walks their map.
unfoldable pub fetch_pool_hash_rate :
    (Peer → Bytes) → (ClientInfos → ClientInfos) → List Endpoint → Rat × ClientInfos
unfolding rate_loop fetch_client_info
fetch_pool_hash_rate address walk endpoints =
    let infos = fetch_client_info address endpoints in (rate_loop (walk infos) zero_rat, infos)
