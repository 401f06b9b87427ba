-- ===== src/Miner/Session.antt =====
-- cmd/miner: what a miner's state is at any time, and what the operations share in keeping it.
pub mod Connecting
pub mod Replies
pub mod Runs
use eacrpool.Prelude.{
  ℕ, ◌≡◌, refl, ◌∙◌, ap, sym, Bool, true, false, not, ◌||◌, Option, none, some, Option-cases, List,
  [], ◌∷◌, ◌==◌, ◌+◌, ◌%◌, ◌^◌, arith, Bool-cases, inl, inr,
}
use eacrpool.Errors.{Result, ok, err, panic, result_cases, Error}
use eacrpool.Bytes.{Bytes, equal, equal-eq, equal_refl}
use eacrpool.ChainState.{BlockHeader}
use eacrpool.Client.{Chain}
use eacrpool.Exec.{Exec, gets, modify, ◌>>=◌, ◌>>◌}
use eacrpool.Message.{
  Wire, Message, Request, Response, StratumError, request, response, authorize, subscribe, submit,
  set_difficulty, notify, request_message, response_message, notification_message,
}
use eacrpool.Message.Responses.{
  parse_authorize_response, parse_subscribe_response, parse_submit_work_response,
}
use eacrpool.Message.Notifications.{parse_set_difficulty_notification, parse_work_notification}
use eacrpool.Difficulty.{Params, difficulty_to_target, of_int}
use eacrpool.Miner.Solver.{Signal, Outcome, stopped, searching, solved, first_turn, solve_block}
use eacrpool.Miner.{
  Work, no_work, Config, MinerState, SendOutcome, sent_work, end_of_file, tcp_write_error,
  other_op_error, other_error, new_miner, method_of, record_request, fetch_request, next_id,
  cancel_miner, encode_request, or_cancel, authenticate, subscribe_miner, keep_alive,
  lose_connection,
}
use eacrpool.Miner.Processing.{
  take_authorization, process_authorize_response, process_submit_response, generate_header, set_job,
  process_notify, process_subscribe_response, process_set_difficulty, response_to,
  process_pool_response, process_notification, process_received,
}
use eacrpool.Miner.Submissions.{submit_outcome, send_request, solve, generate_blocks}

-- whether a request of a method was recorded
unfoldable pub asked : Bytes → List (ℕ × Bytes) → Bool
asked method [] = false
asked method ((id, m) ∷ rest) = let earlier = asked method rest in equal m method || earlier

unfoldable pub has_header : Work → Bool
has_header w = elim w.header [ none ↦ false | some h ↦ true ]

pub asked-method_of :
    (id : ℕ) (method : Bytes) (req : List (ℕ × Bytes))
    → equal (method_of id req) method ≡ true
    → equal method [] ≡ false
    → asked method req ≡ true
unfolding asked method_of
asked-method_of id method [] h named = ground (arith, equal-eq [] method, equal_refl method)
asked-method_of id method ((k, m) ∷ rest) h named = elim (Bool-cases (k == id)) [
  | inl here ↦ ground arith
  | inr elsewhere ↦ ground (arith, asked-method_of id method rest)
]

module _ {F : Type 0} where
  -- Work, authorization and subscription only where there was what must come before.
  pub record IsSound (m : MinerState F) : Type 0 where
    pub admitted : has_header m.work ≡ true → (m.authorized ≡ true) × (m.subscribed ≡ true)
    pub asked_authorize : m.authorized ≡ true → asked authorize m.req ≡ true
    pub asked_subscribe : m.subscribed ≡ true → asked subscribe m.req ≡ true

  pub new_miner-IsSound : IsSound new_miner
  unfolding has_header
  new_miner-IsSound = record {
    admitted = λ h. ground arith;
    asked_authorize = λ h. ground arith;
    asked_subscribe = λ h. ground arith;
  }

  -- an operation keeps it, whatever it returns
  abbrev pub Keeps : {A : Type 0} → Exec (MinerState F) A → Type 0
  Keeps op = (m : MinerState F) → IsSound m → IsSound (op m).1

  pub or_cancel-IsSound :
      {A : Type 0} (r : Result A) (k : A → Exec (MinerState F) (Unit {0}))
      → ((a : A) → Keeps (k a))
      → Keeps (or_cancel r k)
  unfolding or_cancel
  or_cancel-IsSound (ok a) k keeps m s = keeps a m s
  or_cancel-IsSound (err e) k keeps m s = record {
    admitted = s.admitted;
    asked_authorize = s.asked_authorize;
    asked_subscribe = s.asked_subscribe;
  }
  or_cancel-IsSound panic k keeps m s = s

  then-IsSound :
      {A C : Type 0} (r : Result A) (n : MinerState F) (k : A → Exec (MinerState F) C)
      → ((a : A) → Keeps (k a))
      → IsSound n
      → IsSound
          (elim r as (λ _. Result C × MinerState F) [
            | ok a ↦ k a n
            | err e ↦ (err e, n)
            | panic ↦ (panic, n)
          ]).1
  then-IsSound (ok a) n k later s = later a n s
  then-IsSound (err e) n k later s = s
  then-IsSound panic n k later s = s

  pub bind-IsSound :
      {A C : Type 0} (op : Exec (MinerState F) A) (k : A → Exec (MinerState F) C)
      → Keeps op
      → ((a : A) → Keeps (k a))
      → Keeps (op >>= k)
  bind-IsSound op k keeps later m s = then-IsSound (op m).0 (op m).1 k later (keeps m s)

  pub same-IsSound :
      (m m' : MinerState F)
      → m'.work ≡ m.work
      → m'.authorized ≡ m.authorized
      → m'.subscribed ≡ m.subscribed
      → m'.req ≡ m.req
      → IsSound m
      → IsSound m'
  same-IsSound m m' work authorized subscribed req s = record {
    admitted = ground (arith, s.admitted);
    asked_authorize = ground (arith, s.asked_authorize);
    asked_subscribe = ground (arith, s.asked_subscribe);
  }

  pub record_request-IsSound : (id : ℕ) (method : Bytes) → Keeps (record_request id method)
  unfolding asked
  record_request-IsSound id method m s = record {
    admitted = s.admitted;
    asked_authorize = ground (arith, s.asked_authorize);
    asked_subscribe = ground (arith, s.asked_subscribe);
  }

  pub encode_request-IsSound :
      (encoded : Result (Unit {0})) (req : Request F) → Keeps (encode_request encoded req)
  encode_request-IsSound (ok _) req m s =
      same-IsSound m (encode_request (ok tt) req m).1 refl refl refl refl s
  encode_request-IsSound (err e) req m s = s
  encode_request-IsSound panic req m s = s

  pub cancel_miner-IsSound : Keeps cancel_miner
  cancel_miner-IsSound m s = same-IsSound m (cancel_miner m).1 refl refl refl refl s
