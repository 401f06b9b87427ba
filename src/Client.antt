-- ===== src/Client.antt =====
-- pool/client.go: a connected client, its configuration, and the share that it claims. What it sends
-- is a list in the order of sending, and so are the submissions that the consensus daemon is given.
pub mod Authorize
pub mod Subscribe
pub mod Submit
pub mod CurrentWork
pub mod Process
pub mod Delivery
pub mod HashRate
use eacrpool.Prelude.{
  ℕ, ◌+◌, ◌%◌, ◌^◌, Bool, true, false, not, ◌&&◌, Option, none, some, List, [], ◌∷◌, ◌++◌,
  if◌then◌else◌,
}
use eacrpool.Errors.{Error, Result, ok, err, panic}
use eacrpool.Bytes.{Bytes, hex_encode}
use eacrpool.Text.{codes}
use eacrpool.Bolt.{Bolt}
use eacrpool.Json.{Json}
use eacrpool.Db.{Db}
use eacrpool.Rat.{Rat, zero_rat}
use eacrpool.Exec.{Exec, modify, lift, ◌>>=◌, ◌>>◌}
use eacrpool.Account.{Account, Network}
use eacrpool.Job.{Job}
use eacrpool.Work.{AcceptedWork}
use eacrpool.Share.{Share, new_share, create_share}
use eacrpool.ChainState.{BlockHeader}
use eacrpool.Difficulty.{Miner, cpu_miner, name, share_weights, DifficultyInfo, ℤ}
use eacrpool.Message.{
  Message, Request, Response, StratumError, request, response, new_stratum_error, unknown,
}

pub record Client : Type 0 where
  -- an int64
  pub submissions : ℕ
  pub id : Bytes
  pub extra_nonce_1 : Bytes
  pub name : Bytes
  pub account : Bytes
  pub authorized : Bool
  pub subscribed : Bool
  -- whether the client's context was cancelled
  pub cancelled : Bool
  pub hash_rate : Rat

-- What the client uses of eacrd: wire's reading and writing of a header, and the numbers of a hash and
-- of a compact target.
pub record Chain : Type 0 where
  pub from_bytes : Bytes → Option BlockHeader
  pub header_bytes : BlockHeader → Option Bytes
  pub hash_to_big : Bytes → ℕ
  pub compact_to_big : ℕ → ℤ

-- `submit_work` is the daemon's answer.
pub record ClientConfig : Type 0 where
  pub main_net : Bool
  pub active_net : Network
  pub solo_pool : Bool
  pub blake256_pad : Bytes
  pub miner : Miner
  pub difficulty_info : DifficultyInfo
  pub submit_work : Bytes → Result Bool

pub record Codecs : Type 0 where
  pub account_json : Json Account
  pub share_json : Json Share
  pub job_json : Json Job
  pub work_json : Json AcceptedWork

-- The clock at the places where a handler reads it, in seconds and nanoseconds.
pub record Times : Type 0 where
  pub seconds : ℕ
  pub nanoseconds : ℕ

pub record Session (B : Bolt) (F : Type 0) : Type 0 where
  pub client : Client
  pub db : Db B
  pub sent : List (Message F)
  pub submitted : List Bytes

-- generateExtraNonce1; `random` is what rand.Read gives for four bytes.
unfoldable pub generate_extra_nonce_1 : Result Bytes → Client → Result Client
generate_extra_nonce_1 random c = elim random [
  | err e ↦ err e
  | panic ↦ panic
  | ok id ↦ ok (record c { extra_nonce_1 = hex_encode id })
]

abbrev pub blank_client : Client
blank_client = record {
  submissions = 0;
  id = [];
  extra_nonce_1 = [];
  name = [];
  account = [];
  authorized = false;
  subscribed = false;
  cancelled = false;
  hash_rate = zero_rat;
}

unfoldable pub new_client : ClientConfig → Result Bytes → Result Client
unfolding generate_extra_nonce_1
new_client cfg random = elim (generate_extra_nonce_1 random blank_client) [
  | err e ↦ err e
  | panic ↦ panic
  | ok c' ↦ ok (record c' { id = c'.extra_nonce_1 ++ codes "/" ++ name cfg.miner })
]

-- `*req.ID`, which panics for a nil pointer
unfoldable pub request_id : {F : Type 0} → Request F → Result ℕ
request_id req = elim req.id [ none ↦ panic | some id ↦ ok id ]

module _ {B : Bolt} {F : Type 0} where
  -- `c.ch <- msg`, a message for the client
  unfoldable pub send : Message F → Exec (Session B F) (Unit {0})
  send msg s = (ok tt, record s { sent = s.sent ++ msg ∷ [] })

  abbrev pub set_client : (Client → Client) → Exec (Session B F) (Unit {0})
  set_client f = modify λ s. record s { client = f s.client }

  -- a call on the database
  unfoldable pub with_db : (Db B → Result (Unit {0}) × Db B) → Exec (Session B F) (Unit {0})
  with_db f s = let (r, d) = f s.db in (r, record s { db = d })

  -- the response that `make` builds for the request's ID
  unfoldable pub respond : Request F → (ℕ → Response F) → Exec (Session B F) (Unit {0})
  unfolding send request_id
  respond req make = do id ← lift (request_id req); send (response (make id))

  -- Run the first call; an error of it is answered by the second, and what it returned is given to the
  -- third.
  unfoldable pub run_or_reject :
      {A : Type 0}
      → Exec (Session B F) A
      → Exec (Session B F) (Unit {0})
      → (A → Exec (Session B F) (Unit {0}))
      → Exec (Session B F) (Unit {0})
  run_or_reject m rejected next s =
      let (r, s') = m s in elim r [ ok a ↦ next a s' | err e ↦ rejected s' | panic ↦ (panic, s') ]

  -- claimWeightedShare; a CPU miner claims nothing on the main network.
  unfoldable pub claim_weighted_share :
      ClientConfig → Codecs → Times → Exec (Session B F) (Unit {0})
  unfolding with_db
  claim_weighted_share cfg codecs now s =
      if cfg.main_net && is_cpu cfg.miner
      then (ok tt, s)
      else with_db
          (create_share codecs.share_json
            (new_share now.nanoseconds s.client.account (share_weights cfg.miner)))
          s
    where
      is_cpu : Miner → Bool
      is_cpu cpu_miner = true
      is_cpu _ = false

-- an error of code `Unknown` without a traceback
abbrev pub unknown_error : Option StratumError
unknown_error = some (new_stratum_error unknown none)
