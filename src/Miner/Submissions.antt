-- ===== src/Miner/Submissions.antt =====
-- cmd/miner/cpuminer.go: solve and generateBlocks, which submit what the search finds.
use eacrpool.Prelude.{ℕ, Option, none, some, List, [], ◌++◌, if◌then◌else◌}
use eacrpool.Errors.{Result, ok, err, panic}
use eacrpool.Bytes.{Bytes, equal}
use eacrpool.Text.{codes}
use eacrpool.Exec.{Exec, pure, lift, ◌>>=◌, ◌>>◌}
use eacrpool.ChainState.{BlockHeader}
use eacrpool.Client.{Chain}
use eacrpool.Message.{Request, submit}
use eacrpool.Message.Requests.{submit_work_request}
use eacrpool.Miner.Solver.{Signal, Outcome, solved, stopped, searching, first_turn, solve_block}
use eacrpool.Miner.{
  Config, MinerState, SendOutcome, sent_work, end_of_file, tcp_write_error, other_op_error,
  other_error, record_request, next_id, cancel_miner, encode_request,
}

module _ {F : Type 0} where
  -- the request of what solveBlock found
  unfoldable pub submit_outcome :
      Config → Bytes → Result Outcome → Exec (MinerState F) (Option (Request F))
  submit_outcome cfg job_id (ok (solved found last)) = do
    id ← next_id
    pure (
        some (
          submit_work_request (some id) (cfg.address ++ codes "." ++ cfg.user) job_id
            found.extra_nonce_2 found.n_time found.nonce))
  submit_outcome cfg job_id (ok (stopped last)) = pure none
  submit_outcome cfg job_id (ok (searching last)) = pure none
  submit_outcome cfg job_id (err e) = lift (err e)
  submit_outcome cfg job_id panic = lift panic

  -- What Encode gives, as generateBlocks tells its errors apart: EOF, a write error of TCP, another
  -- net.OpError, and any other error, at which the type assertion panics.
  unfoldable pub send_request : Request F → SendOutcome → Exec (MinerState F) (Unit {0})
  send_request work sent_work = encode_request (ok tt) work
  send_request work end_of_file = pure tt
  send_request work tcp_write_error = pure tt
  send_request work other_op_error = cancel_miner
  send_request work other_error = lift panic

  -- A turn of `solve`: the signals are those that solveBlock receives. It returns the request for
  -- workCh; there is none where there is no work yet, or where solveBlock returns without a solution
  -- or does not return.
  unfoldable pub solve :
      Chain → (BlockHeader → ℕ) → Config → List Signal → Exec (MinerState F) (Option (Request F))
  unfolding submit_outcome
  solve chain timestamp cfg signals m = elim m.work.target [
    | none ↦ (ok none, m)
    | some target ↦ elim m.work.header [
      | none ↦ (ok none, m)
      | some header ↦
          if equal m.work.job_id []
          then (ok none, m)
          else submit_outcome cfg m.work.job_id
              (solve_block chain timestamp target signals (first_turn header)) m
    ]
  ]

  -- A turn of generateBlocks: the request is recorded before it is sent.
  unfoldable pub generate_blocks : ℕ → Request F → SendOutcome → Exec (MinerState F) (Unit {0})
  unfolding send_request
  generate_blocks id work outcome = do record_request id submit; send_request work outcome
