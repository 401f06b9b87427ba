-- ===== src/Client/Submit.antt =====
-- pool/client.go, handleSubmitWorkRequest.
pub mod Outcomes
pub mod Claims
use eacrpool.Prelude.{
  ℕ, zero, suc, ◌+◌, ◌-◌, ◌*◌, ◌%◌, ◌^◌, ◌==◌, ltb, Bool, true, false, not, ◌||◌, Option, none,
  some, [], ◌∷◌, ◌++◌, take, length, if◌then◌else◌,
}
use eacrpool.Errors.{
  Error, Result, ok, err, panic, make_error, other, work_exists, is_error, foreign,
}
use eacrpool.Bytes.{Bytes, hex_encode}
use eacrpool.Strings.{repeat}
use eacrpool.Bolt.{Bolt}
use eacrpool.Db.{Db}
use eacrpool.Exec.{Exec, lift, gets, reads, ◌>>=◌, ◌>>◌}
use eacrpool.Rat.{Rat, is_zero}
use eacrpool.Job.{Job, fetch_job}
use eacrpool.Work.{new_accepted_work, create_work}
use eacrpool.ChainState.{BlockHeader}
use eacrpool.Solved.{generate_solved_block_header, overlay}
use eacrpool.Difficulty.{ℤ, pos, negsuc, name, DifficultyInfo, above, of_int}
use eacrpool.Message.{
  Request, StratumError, new_stratum_error, unknown, duplicate_share, low_difficulty_share,
}
use eacrpool.Message.Requests.{parse_submit_work_request}
use eacrpool.Message.Responses.{submit_work_response}
use eacrpool.Client.{
  Client, Chain, ClientConfig, Codecs, Times, Session, set_client, with_db, respond, run_or_reject,
  claim_weighted_share, unknown_error,
}

-- the code in an error of the response
abbrev pub stratum_error : ℕ → Option StratumError
stratum_error code = some (new_stratum_error code none)

-- The target of the block's bits, which must be above zero.
unfoldable pub positive_target : ℤ → Result ℕ
positive_target (pos zero) = err (make_error other)
positive_target (pos (suc n)) = ok (suc n)
positive_target (negsuc n) = err (make_error other)

-- `copy(submissionB[:180], headerB)` and `copy(submissionB[180:], pad)` on 192 zero bytes, in
-- hexadecimal
unfoldable pub submission_data : Bytes → Bytes → Bytes
submission_data header_bytes pad =
    let zeros = repeat 0 180 in
    hex_encode (overlay 180 header_bytes zeros ++ overlay 12 pad (repeat 0 12))

-- The number of the block's hash. The divisions for the log panic where it, or the pool's target, is
-- zero.
unfoldable pub hash_target : Chain → DifficultyInfo → BlockHeader → Result ℕ
hash_target chain info header =
    let hash = chain.hash_to_big header.block_hash in
    if is_zero info.target || hash == 0 then panic else ok hash

module _ {B : Bolt} {F : Type 0} (chain : Chain) (cfg : ClientConfig) (codecs : Codecs) where
  -- The header that the submission solves, and its target on the network.
  unfoldable pub solved_submission : Request F → Session B F → Result (BlockHeader × ℕ)
  unfolding positive_target
  solved_submission req s = elim (parse_submit_work_request req) [
    | err e ↦ err e
    | panic ↦ panic
    | ok (_, job_id, extra_nonce_2, n_time, nonce) ↦ elim (fetch_job codecs.job_json job_id s.db) [
      | err e ↦ err e
      | panic ↦ panic
      | ok job ↦
          elim (generate_solved_block_header chain.from_bytes job.header s.client.extra_nonce_1
            extra_nonce_2 n_time nonce (name cfg.miner)) [
              | err e ↦ err e
              | panic ↦ panic
              | ok header ↦ elim (positive_target (chain.compact_to_big header.bits)) [
                | err e ↦ err e
                | panic ↦ panic
                | ok target ↦ ok (header, target)
              ]
            ]
    ]
  ]

  unfoldable pub reject_work : Request F → ℕ → Exec (Session B F) (Unit {0})
  unfolding respond
  reject_work req code = respond req λ id. submit_work_response id false (stratum_error code)

  -- the work of a block that the daemon accepted; nothing is sent where it is stored
  unfoldable pub record_work : Times → Request F → BlockHeader → Exec (Session B F) (Unit {0})
  unfolding with_db reject_work
  record_work now req header s =
      let work =
        new_accepted_work now.seconds header.block_hash header.prev_block header.height
          s.client.account (name cfg.miner) in
      let (r, s') = with_db (create_work codecs.work_json work) s in
      elim r [
        | ok _ ↦ (ok tt, s')
        | err e ↦ reject_work req (if is_error e work_exists then duplicate_share else unknown) s'
        | panic ↦ (panic, s')
      ]

  -- the answer of the daemon to a submission
  unfoldable pub submit_block : Bytes → Exec (Session B F) Bool
  submit_block submission s =
      (cfg.submit_work submission, record s { submitted = s.submitted ++ submission ∷ [] })

  unfoldable pub submit_solved : Times → Request F → BlockHeader → Exec (Session B F) (Unit {0})
  unfolding record_work submit_block submission_data respond run_or_reject reject_work
  submit_solved now req header =
      run_or_reject (lift (header_data header)) (reject_work req unknown) λ bytes.
        run_or_reject (submit_block (submission_data bytes cfg.blake256_pad))
          (reject_work req unknown)
          λ accepted.
            if accepted
            then record_work now req header
            else respond req λ id. submit_work_response id false none
    where
      header_data : BlockHeader → Result Bytes
      header_data h = elim (chain.header_bytes h) [ none ↦ err foreign | some b ↦ ok b ]

  -- what follows the claim of a share: only a hash within the network's target is submitted
  unfoldable pub submit_below :
      Times → Request F → BlockHeader → ℕ → ℕ → Exec (Session B F) (Unit {0})
  unfolding submit_solved respond
  submit_below now req header hash target =
      if ltb target hash
      then (respond req λ id. submit_work_response id true none)
      else submit_solved now req header

  -- the share of a submission, where the pool is not in solo mode
  unfoldable pub claim_share : Times → Exec (Session B F) (Unit {0})
  unfolding claim_weighted_share
  claim_share now s = if cfg.solo_pool then (ok tt, s) else claim_weighted_share cfg codecs now s

  unfoldable pub handle_solved :
      Times → Request F → BlockHeader → ℕ → ℕ → Exec (Session B F) (Unit {0})
  unfolding submit_below claim_share reject_work run_or_reject above of_int
  handle_solved now req header hash target =
      if above (of_int hash) cfg.difficulty_info.target
      then reject_work req low_difficulty_share
      else (do
        set_client λ c. record c { submissions = (c.submissions + 1) % 2 ^ 64 }
        run_or_reject (claim_share now) (reject_work req unknown)
            λ _. submit_below now req header hash target)

  unfoldable pub handle_submit_work_request :
      Times → Request F → Bool → Exec (Session B F) (Unit {0})
  unfolding solved_submission hash_target handle_solved reject_work run_or_reject
  handle_submit_work_request now req allowed =
      if not allowed
      then reject_work req unknown
      else run_or_reject (reads (solved_submission req)) (reject_work req unknown)
          λ (header, target). do
            hash ← lift (hash_target chain cfg.difficulty_info header)
            handle_solved now req header hash target
