-- ===== src/Tests/Endpoints.antt =====
-- An endpoint with one client, and the difficulties of a network.
use eacrpool.Prelude.{◌≡◌, true, false, List, [], ◌∷◌, ◌++◌, ◌-◌, if◌then◌else◌, reverse, arith}
use eacrpool.Errors.{ok}
use eacrpool.Bytes.{Bytes, equal, hex_encode}
use eacrpool.Text.{codes}
use eacrpool.Hub.{Hub, fetch_host_connections, remove_connection}
use eacrpool.Difficulty.{Miner, cpu_miner, DifficultyInfo, Params, new_difficulty_set}
use eacrpool.Difficulty.Targets.{HasTarget, new_difficulty_set_targets}
use eacrpool.Client.{blank_client}
use eacrpool.Endpoint.{Endpoint, Peer, enter}
use eacrpool.Endpoint.Steps.{System, idle, entered}
use eacrpool.Rat.{zero_rat}
use eacrpool.Hub.Clients.{
  infos_of, fetch_client_info, fetch_account_client_info, fetch_pool_hash_rate,
}
use eacrpool.Hub.Clients.Grouped.{endpoints_rate}
use eacrpool.Hub.Clients.Walks.{none_left, walked, client_info_agrees}
use mathlib.Core.List.{Perm, reverse_perm}
use mathlib.Core.List.Perm
use eacrpool.Tests.Clients.{info, network}

abbrev peer : Peer
peer = record {
  host = 104 ∷ [];
  client = record blank_client {
    id = codes "0909/cpu";
    account = codes "a";
    hash_rate = record { num = 5; den = 2 };
  };
}

abbrev endpoint : Endpoint
endpoint = record {
  miner = cpu_miner;
  port = 5550;
  diff_info = info;
  cfg = record {
    main_net = false;
    active_net = network;
    solo_pool = false;
    blake256_pad = [];
    max_connections_per_host = 2;
    submit_work = λ s. ok true;
  };
  clients = (peer.client.id, peer) ∷ [];
}

abbrev hub : Hub
hub = record { clients = 1; connections = (peer.host, 1) ∷ [] }

abbrev empty_endpoint : Endpoint
empty_endpoint = record endpoint { clients = [] }

-- a host that has a connection to another endpoint connects to this one
abbrev newcomer : Peer
newcomer = record {
  host = 104 ∷ [];
  client = record blank_client {
    extra_nonce_1 = hex_encode (1 ∷ 2 ∷ 3 ∷ 4 ∷ []);
    id = hex_encode (1 ∷ 2 ∷ 3 ∷ 4 ∷ []) ++ codes "/cpu";
  };
}

abbrev start : System
start = record {
  endpoint = empty_endpoint;
  hub = hub;
  phase = idle;
  others = λ host. fetch_host_connections host hub;
}

-- The other connection is closed while the client is in the table and not counted.
abbrev meanwhile : System
meanwhile = record {
  endpoint = enter newcomer empty_endpoint;
  hub = remove_connection newcomer.host hub;
  phase = entered newcomer;
  others = λ j.
      if equal newcomer.host j
      then fetch_host_connections j hub - 1
      else fetch_host_connections j hub;
}

abbrev params : Params
params = record { pow_limit = 1000000; iterations = record { num = 4096; den = 1 } }

new_difficulty_set_targets_example :
    (diffs : List (Bytes × DifficultyInfo)) × (new_difficulty_set params info.pow_limit 15
      ≡ ok diffs)
    × ((miner : Miner)
        → HasTarget params
            (omega arith)
            (record { num_pos = omega arith; den_pos = omega arith })
            info.pow_limit
            miner
            diffs)
new_difficulty_set_targets_example =
    new_difficulty_set_targets params (omega arith)
      (record { num_pos = omega arith; den_pos = omega arith }) info.pow_limit 15 (omega arith)

abbrev shown : Peer → Bytes
shown p = p.host

abbrev second : Peer
second = record peer { client = record peer.client { id = codes "0a0a/cpu" } }

abbrev walk_one : List (Bytes × Peer)
walk_one = (peer.client.id, peer) ∷ (second.client.id, second) ∷ []

abbrev walk_two : List (Bytes × Peer)
walk_two = (second.client.id, second) ∷ (peer.client.id, peer) ∷ []

abbrev two_clients : Endpoint
two_clients = record endpoint { clients = walk_one }

client_info_agrees_example :
    Perm
      (infos_of (codes "a") (fetch_client_info shown (two_clients ∷ [])))
      (fetch_account_client_info shown (codes "a") (record two_clients { clients = walk_two } ∷ []))
    × ((fetch_pool_hash_rate shown reverse (two_clients ∷ [])).0
        ≡ endpoints_rate (record two_clients { clients = walk_two } ∷ []) zero_rat)
client_info_agrees_example =
    client_info_agrees shown (codes "a") reverse (two_clients ∷ [])
      (record two_clients { clients = walk_two } ∷ []) (λ m. Perm.symm (reverse_perm m))
      (walked two_clients walk_two (Perm.swap (second.client.id, second) (peer.client.id, peer) [])
        none_left)
