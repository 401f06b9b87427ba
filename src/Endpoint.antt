-- ===== src/Endpoint.antt =====
-- pool/endpoint.go: the clients of a miner's endpoint, and their connections, which the hub counts.
pub mod Table
pub mod Steps
pub mod Counts
use eacrpool.Prelude.{ℕ, leb, Bool, true, false, Option, none, some, List, [], ◌∷◌, if◌then◌else◌}
use eacrpool.Errors.{Result, ok, err, panic}
use eacrpool.Bytes.{Bytes}
use eacrpool.Map.{set_key, remove_key}
use eacrpool.Account.{Network}
use eacrpool.Difficulty.{Miner, DifficultyInfo}
use eacrpool.Hub.{Hub, fetch_host_connections}
use eacrpool.Client.{Client, ClientConfig, new_client}

pub record EndpointConfig : Type 0 where
  pub main_net : Bool
  pub active_net : Network
  pub solo_pool : Bool
  pub blake256_pad : Bytes
  pub max_connections_per_host : ℕ
  pub submit_work : Bytes → Result Bool

-- A client with the host of its address.
pub record Peer : Type 0 where
  pub host : Bytes
  pub client : Client

pub record Endpoint : Type 0 where
  pub miner : Miner
  pub port : ℕ
  pub diff_info : DifficultyInfo
  pub cfg : EndpointConfig
  pub clients : List (Bytes × Peer)

-- `listening` is the outcome of net.Listen.
unfoldable pub new_endpoint :
    EndpointConfig → DifficultyInfo → ℕ → Miner → Result (Unit {0}) → Result Endpoint
new_endpoint cfg diff_info port miner listening = elim listening [
  | err e ↦ err e
  | panic ↦ panic
  | ok _ ↦
      ok (record { miner = miner; port = port; diff_info = diff_info; cfg = cfg; clients = [] })
]

-- The configuration of a client. The literal of the source does not set SoloPool, which is false then.
unfoldable pub client_config : Endpoint → ClientConfig
client_config e = record {
  main_net = e.cfg.main_net;
  active_net = e.cfg.active_net;
  solo_pool = false;
  blake256_pad = e.cfg.blake256_pad;
  miner = e.miner;
  difficulty_info = e.diff_info;
  submit_work = e.cfg.submit_work;
}

-- `e.clients[client.id] = client`, and the removal of a client from the table
unfoldable pub enter : Peer → Endpoint → Endpoint
enter peer e = record e { clients = set_key peer.client.id peer e.clients }

unfoldable pub leave : Peer → Endpoint → Endpoint
leave peer e = record e { clients = remove_key peer.client.id e.clients }

-- What is made of a connection: `none` is one that is closed, as its host is at the limit or rand.Read
-- fails. The new client enters the table and is counted afterwards, so that the hub's count may have
-- changed meanwhile.
unfoldable pub admit : Bytes → Result Bytes → Endpoint → Hub → Result (Option Peer)
unfolding client_config
admit host random e hub =
    if leb e.cfg.max_connections_per_host (fetch_host_connections host hub)
    then ok none
    else elim (new_client (client_config e) random) [
      | err _ ↦ ok none
      | panic ↦ panic
      | ok client ↦ ok (some (record { host = host; client = client }))
    ]
