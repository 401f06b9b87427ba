-- ===== src/Miner/Session/Runs.antt =====
-- cmd/miner: the life of the CPU miner, as the steps of its goroutines in any order.
use eacrpool.Prelude.{ℕ, refl, Option-cases, List, [], Bool-cases, inl, inr}
use eacrpool.Errors.{Result, ok, err, panic}
use eacrpool.Bytes.{Bytes, equal}
use eacrpool.ChainState.{BlockHeader}
use eacrpool.Client.{Chain}
use eacrpool.Message.{Wire, Message, Request, submit}
use eacrpool.Miner.Solver.{Signal, Outcome, stopped, searching, solved, first_turn, solve_block}
use eacrpool.Miner.{
  Config, MinerState, SendOutcome, sent_work, end_of_file, tcp_write_error, other_op_error,
  other_error, new_miner, record_request, next_id, keep_alive, lose_connection,
}
use eacrpool.Miner.Processing.{process_received}
use eacrpool.Miner.Submissions.{submit_outcome, send_request, solve, generate_blocks}
use eacrpool.Miner.Session.{
  IsSound, Keeps, new_miner-IsSound, same-IsSound, record_request-IsSound, encode_request-IsSound,
  cancel_miner-IsSound,
}
use eacrpool.Miner.Session.Connecting.{keep_alive-IsSound, lose_connection-IsSound}
use eacrpool.Miner.Session.Replies.{process_received-IsSound}

module _ {F : Type 0} where
  send_request-IsSound :
      (work : Request F) (outcome : SendOutcome) → Keeps (send_request work outcome)
  unfolding send_request
  send_request-IsSound work sent_work m s = encode_request-IsSound (ok tt) work m s
  send_request-IsSound work end_of_file m s = s
  send_request-IsSound work tcp_write_error m s = s
  send_request-IsSound work other_op_error m s = cancel_miner-IsSound m s
  send_request-IsSound work other_error m s = s

  generate_blocks-IsSound :
      (id : ℕ) (work : Request F) (outcome : SendOutcome) → Keeps (generate_blocks id work outcome)
  unfolding generate_blocks
  generate_blocks-IsSound id work outcome m s =
      send_request-IsSound work outcome (record_request id submit m).1
        (record_request-IsSound id submit m s)

  submit_outcome-IsSound :
      (cfg : Config) (job_id : Bytes) (outcome : Result Outcome)
      → Keeps {F = F} (submit_outcome cfg job_id outcome)
  unfolding submit_outcome
  submit_outcome-IsSound cfg job_id (ok (solved found last)) m s =
      same-IsSound m (next_id m).1 refl refl refl refl s
  submit_outcome-IsSound cfg job_id (ok (stopped last)) m s = s
  submit_outcome-IsSound cfg job_id (ok (searching last)) m s = s
  submit_outcome-IsSound cfg job_id (err e) m s = s
  submit_outcome-IsSound cfg job_id panic m s = s

  solve-IsSound :
      (chain : Chain) (timestamp : BlockHeader → ℕ) (cfg : Config) (signals : List Signal)
      → Keeps {F = F} (solve chain timestamp cfg signals)
  unfolding solve
  solve-IsSound chain timestamp cfg signals m s = elim (Option-cases m.work.target) [
    | inl none_yet ↦ simp (solve, none_yet) s
    | inr (target, given) ↦ elim (Option-cases m.work.header) [
      | inl none_yet ↦ simp (solve, given, none_yet) s
      | inr (header, job) ↦ elim (Bool-cases (equal m.work.job_id [])) [
        | inl unnamed ↦ simp (solve, given, job, unnamed) s
        | inr named ↦
            simp (solve, given, job, named)
              (submit_outcome-IsSound cfg m.work.job_id
                (solve_block chain timestamp target signals (first_turn header)) m s)
      ]
    ]
  ]

module _ (W : Wire) (chain : Chain) (timestamp : BlockHeader → ℕ) (cfg : Config) where
  -- One turn of a goroutine, with whatever it receives.
  pub data Step (m : MinerState W.Float) : MinerState W.Float → Type 0 where
    kept_alive :
        (subscribed authenticated : Result (Unit {0}))
        → Step m (keep_alive cfg subscribed authenticated m).1
    lost : Step m (lose_connection m).1
    processed :
        (identified : Result (Message W.Float × ℕ))
        → Step m (process_received W chain cfg identified m).1
    searched : (signals : List Signal) → Step m (solve chain timestamp cfg signals m).1
    submitted :
        (id : ℕ) (work : Request W.Float) (outcome : SendOutcome)
        → Step m (generate_blocks id work outcome m).1

  -- the states of a miner that NewMiner made
  pub data Reach : MinerState W.Float → Type 0 where
    started : Reach new_miner
    stepped : {m n : MinerState W.Float} → Reach m → Step m n → Reach n

  Step-IsSound : {m n : MinerState W.Float} → Step m n → IsSound m → IsSound n
  Step-IsSound {m = m} (kept_alive subscribed authenticated) s =
      keep_alive-IsSound cfg subscribed authenticated m s
  Step-IsSound {m = m} lost s = lose_connection-IsSound m s
  Step-IsSound {m = m} (processed identified) s =
      process_received-IsSound W chain cfg identified m s
  Step-IsSound {m = m} (searched signals) s = solve-IsSound chain timestamp cfg signals m s
  Step-IsSound {m = m} (submitted id work outcome) s = generate_blocks-IsSound id work outcome m s

  -- In whatever order the miner's goroutines take their turns, and whatever they receive: the miner has
  -- a header to search only if it is authorized and subscribed, and it is each of these only if it
  -- recorded a request for it.
  pub miner_reach-IsSound : {m : MinerState W.Float} → Reach m → IsSound m
  miner_reach-IsSound started = new_miner-IsSound
  miner_reach-IsSound (stepped r step) = Step-IsSound step (miner_reach-IsSound r)
