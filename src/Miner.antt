-- ===== src/Miner.antt =====
-- cmd/miner/client.go: the CPU miner's session with the pool, its state and its requests.
pub mod Solver
pub mod Processing
pub mod Submissions
pub mod Session
use eacrpool.Prelude.{
  ℕ, ◌+◌, ◌%◌, ◌^◌, ◌==◌, Bool, true, false, not, ◌||◌, Option, none, some, List, [], ◌∷◌, ◌++◌,
  if◌then◌else◌,
}
use eacrpool.Errors.{Result, ok, err, panic, make_error, other}
use eacrpool.Bytes.{Bytes, equal}
use eacrpool.Text.{codes}
use eacrpool.Rat.{Rat}
use eacrpool.Exec.{Exec, pure, lift, gets, modify, ◌>>=◌, ◌>>◌}
use eacrpool.ChainState.{BlockHeader}
use eacrpool.Client.{Chain}
use eacrpool.Difficulty.{Params, difficulty_to_target, of_int}
use eacrpool.Solved.{generate_block_header}
use eacrpool.Message.{
  Wire, Message, Request, Response, StratumError, request, response, authorize, subscribe, submit,
  set_difficulty, notify, request_message, response_message, notification_message,
}
use eacrpool.Message.Requests.{authorize_request, subscribe_request, submit_work_request}
use eacrpool.Message.Responses.{
  parse_authorize_response, parse_subscribe_response, parse_submit_work_response,
}
use eacrpool.Message.Notifications.{parse_set_difficulty_notification, parse_work_notification}
use eacrpool.Miner.Solver.{
  Signal, SubmitWorkData, Turn, Outcome, solved, stopped, searching, first_turn, solve_block,
}

-- A nil header or target is `none`.
pub record Work : Type 0 where
  pub job_id : Bytes
  pub header : Option Bytes
  pub target : Option Rat

abbrev pub no_work : Work
no_work = record { job_id = []; header = none; target = none }

pub record Config : Type 0 where
  pub user : Bytes
  pub address : Bytes
  pub version : Bytes
  pub net : Params

-- The fields of the source's Miner that change. `sent` are the requests that were encoded, and
-- `chain_updates` the number of times that the solver was notified of work.
pub record MinerState (F : Type 0) : Type 0 where
  pub id : ℕ
  pub work : Work
  pub req : List (ℕ × Bytes)
  pub authorized : Bool
  pub subscribed : Bool
  pub connected : Bool
  pub cancelled : Bool
  pub extra_nonce_1 : Bytes
  pub extra_nonce_2_size : ℕ
  pub notify_id : Bytes
  pub sent : List (Request F)
  pub chain_updates : ℕ

pub data SendOutcome : Type 0 where
  sent_work end_of_file tcp_write_error other_op_error other_error : SendOutcome

-- the first entry of a key is its latest
unfoldable pub method_of : ℕ → List (ℕ × Bytes) → Bytes
method_of id [] = []
method_of id ((k, method) ∷ rest) =
    let others = method_of id rest in if k == id then method else others

module _ {F : Type 0} where
  abbrev pub new_miner : MinerState F
  new_miner = record {
    id = 0;
    work = no_work;
    req = [];
    authorized = false;
    subscribed = false;
    connected = false;
    cancelled = false;
    extra_nonce_1 = [];
    extra_nonce_2_size = 0;
    notify_id = [];
    sent = [];
    chain_updates = 0;
  }

  abbrev pub record_request : ℕ → Bytes → Exec (MinerState F) (Unit {0})
  record_request id method = modify λ m. record m { req = (id, method) ∷ m.req }

  abbrev pub fetch_request : ℕ → Exec (MinerState F) Bytes
  fetch_request id = gets λ m. method_of id m.req

  abbrev pub next_id : Exec (MinerState F) ℕ
  next_id m = let id = (m.id + 1) % 2 ^ 64 in (ok id, record m { id = id })

  abbrev pub cancel_miner : Exec (MinerState F) (Unit {0})
  cancel_miner = modify λ m. record m { cancelled = true }

  -- m.encoder.Encode, with its outcome
  abbrev pub encode_request : Result (Unit {0}) → Request F → Exec (MinerState F) (Unit {0})
  encode_request (ok _) req m = (ok tt, record m { sent = m.sent ++ req ∷ [] })
  encode_request (err e) req m = (err e, m)
  encode_request panic req m = (panic, m)

  -- an error is logged and ends the miner
  unfoldable pub or_cancel :
      {A : Type 0}
      → Result A
      → (A → Exec (MinerState F) (Unit {0}))
      → Exec (MinerState F) (Unit {0})
  or_cancel (ok a) k = k a
  or_cancel (err e) k = cancel_miner
  or_cancel panic k = lift panic

  unfoldable pub authenticate : Config → Result (Unit {0}) → Exec (MinerState F) (Unit {0})
  authenticate cfg encoded = do
    id ← next_id
    encode_request encoded (authorize_request (some id) cfg.user cfg.address)
    record_request id authorize

  unfoldable pub subscribe_miner : Config → Result (Unit {0}) → Exec (MinerState F) (Unit {0})
  subscribe_miner cfg encoded = do
    id ← next_id
    notify_id ← gets λ m. m.notify_id
    encode_request encoded (subscribe_request (some id) (codes "cpuminer") cfg.version notify_id)
    record_request id subscribe

  -- A turn of keepAlive that dialled: only if both requests are sent it is connected.
  unfoldable pub keep_alive :
      Config → Result (Unit {0}) → Result (Unit {0}) → Exec (MinerState F) (Unit {0})
  unfolding authenticate subscribe_miner
  keep_alive cfg subscribed authenticated m =
      if m.connected
      then (ok tt, m)
      else (do
        subscribe_miner cfg subscribed
        authenticate cfg authenticated
        modify λ n. record n { connected = true })
          m

  -- what `read` does where reading fails
  abbrev pub lose_connection : Exec (MinerState F) (Unit {0})
  lose_connection = modify λ m. record m { work = no_work; connected = false }
