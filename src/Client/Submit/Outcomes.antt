-- ===== src/Client/Submit/Outcomes.antt =====
-- pool/client.go: what a submission may change.
use eacrpool.Prelude.{
  ℕ, ◌+◌, ◌%◌, ◌^◌, ◌≤◌, ◌≡◌, refl, ap, ◌⊎◌, inl, inr, Bool, true, false, ltb, some, [], ◌∷◌, ◌++◌,
  arith, if◌then◌else◌, Bool-cases, Option-cases,
}
use eacrpool.Errors.{ok, result_cases, is_error, work_exists}
use eacrpool.Bytes.{Bytes}
use eacrpool.Bolt.{Bolt}
use eacrpool.Work.{AcceptedWork, new_accepted_work, create_work}
use eacrpool.ChainState.{BlockHeader}
use eacrpool.Difficulty.{above, of_int, name}
use eacrpool.Message.{Request}
use eacrpool.Client.{
  Chain, ClientConfig, Codecs, Times, Session, with_db, send, respond, request_id, run_or_reject,
  claim_weighted_share,
}
use eacrpool.Client.Submit.{
  solved_submission, hash_target, reject_work, record_work, submit_block, submission_data,
  submit_solved, submit_below, claim_share, handle_solved, handle_submit_work_request,
}

module _ {B : Bolt} {F : Type 0} where
  -- nothing but the messages for the client differs
  abbrev pub OnlySends : Session B F → Session B F → Type 0
  OnlySends s s' = s' ≡ record s { sent = s'.sent }

  -- the client and what the daemon was given are the same
  abbrev pub KeepsClient : Session B F → Session B F → Type 0
  KeepsClient s s' = (s'.client ≡ s.client) × (s'.submitted ≡ s.submitted)

  -- with one submission more, as an int64
  abbrev pub counted : Session B F → Session B F
  counted s = record s {
    client = record s.client { submissions = (s.client.submissions + 1) % 2 ^ 64 };
  }

  pub respond-OnlySends :
      (req : Request F) (make : ℕ → _) (s : Session B F) → OnlySends s (respond req make s).1
  unfolding respond request_id send
  respond-OnlySends req make s = elim (Option-cases req.id) [
    | inl no_id ↦ ground (arith, no_id)
    | inr (id, has_id) ↦ ground (arith, has_id)
  ]

  module _ (chain : Chain) (cfg : ClientConfig) (codecs : Codecs) (now : Times)
      (req : Request F) where
    reject_work-OnlySends :
        (code : ℕ) (s : Session B F) → OnlySends s (reject_work chain cfg codecs req code s).1
    unfolding reject_work
    reject_work-OnlySends code s = respond-OnlySends req _ s

    reject_work-KeepsClient :
        (code : ℕ) (s : Session B F) → KeepsClient s (reject_work chain cfg codecs req code s).1
    reject_work-KeepsClient code s =
        let only = reject_work-OnlySends code s in
        (ap (λ x. x.client) only, ap (λ x. x.submitted) only)

    record_work-KeepsClient :
        (header : BlockHeader) (s : Session B F)
        → KeepsClient s (record_work chain cfg codecs now req header s).1
    unfolding record_work with_db
    record_work-KeepsClient header s =
        elim (result_cases (create_work codecs.work_json work s.db).0) [
          | inl (_, done) ↦ ground (arith, done)
          | inr (inl (e, failed)) ↦ ground (
            arith,
            failed,
            reject_work-KeepsClient (if is_error e work_exists then 22 else 20)
                (record s { db = (create_work codecs.work_json work s.db).1 }),
          )
          | inr (inr failed) ↦ ground (arith, failed)
        ]
      where
        work : AcceptedWork
        work =
            new_accepted_work now.seconds header.block_hash header.prev_block header.height
              s.client.account (name cfg.miner)

    -- what the daemon was given: nothing more, or the data of the header
    abbrev pub Submits : BlockHeader → Session B F → Session B F → Type 0
    Submits header s s' =
        (s'.submitted ≡ s.submitted)
        ⊎ ((bytes : Bytes) × (chain.header_bytes header ≡ some bytes)
            × (s'.submitted ≡ (s.submitted ++ submission_data bytes cfg.blake256_pad ∷ [])))

    submit_solved-Submits :
        (header : BlockHeader) (s : Session B F)
        → let s' = (submit_solved chain cfg codecs now req header s).1 in
          (s'.client ≡ s.client) × Submits header s s'
    unfolding submit_solved run_or_reject submit_block
    submit_solved-Submits header s = elim (Option-cases (chain.header_bytes header)) [
      | inl failed ↦ ground (arith, failed, reject_work-KeepsClient 20 s)
      | inr (bytes, has_bytes) ↦ elim (result_cases (cfg.submit_work (data_of bytes))) [
        | inr (inr failed) ↦ ground (arith, has_bytes, failed)
        | inr (inl (e, failed)) ↦
            ground (arith, has_bytes, failed, reject_work-KeepsClient 20 (given bytes))
        | inl (true, accepted) ↦
            ground (arith, has_bytes, accepted, record_work-KeepsClient header (given bytes))
        | inl (false, refused) ↦ ground (
          arith,
          has_bytes,
          refused,
          ap (λ x. x.client) (respond-OnlySends req _ (given bytes)),
          ap (λ x. x.submitted) (respond-OnlySends req _ (given bytes)),
        )
      ]
    ]
      where
        data_of : Bytes → Bytes
        data_of bytes = submission_data bytes cfg.blake256_pad

        given : Bytes → Session B F
        given bytes = record s { submitted = s.submitted ++ data_of bytes ∷ [] }

    submit_below-Submits :
        (header : BlockHeader) (hash target : ℕ) (s : Session B F)
        → let s' = (submit_below chain cfg codecs now req header hash target s).1 in
          (s'.client ≡ s.client)
          × ((s'.submitted ≡ s.submitted) ⊎ ((hash ≤ target) × Submits header s s'))
    unfolding submit_below
    submit_below-Submits header hash target s = elim (Bool-cases (ltb target hash)) [
      | inl high ↦ ground (
        arith,
        high,
        ap (λ x. x.client) (respond-OnlySends req _ s),
        ap (λ x. x.submitted) (respond-OnlySends req _ s),
      )
      | inr low ↦ ground (arith, low, submit_solved-Submits header s)
    ]

    claim_share-KeepsClient :
        (s : Session B F) → KeepsClient s (claim_share chain cfg codecs now s).1
    unfolding claim_share claim_weighted_share with_db
    claim_share-KeepsClient s = ground arith

    handle_solved-Submits :
        (header : BlockHeader) (hash target : ℕ) (s : Session B F)
        → above (of_int hash) cfg.difficulty_info.target ≡ false
        → let s' = (handle_solved chain cfg codecs now req header hash target s).1 in
          (s'.client ≡ (counted s).client)
          × ((s'.submitted ≡ s.submitted) ⊎ ((hash ≤ target) × Submits header s s'))
    unfolding handle_solved run_or_reject
    handle_solved-Submits header hash target s below =
        let claimed = (claim_share chain cfg codecs now (counted s)).1 in
        let kept = claim_share-KeepsClient (counted s) in
        elim (result_cases (claim_share chain cfg codecs now (counted s)).0) [
          | inl (_, done) ↦
              ground (arith, below, done, kept, submit_below-Submits header hash target claimed)
          | inr (inl (e, failed)) ↦
              ground (arith, below, failed, kept, reject_work-KeepsClient 20 claimed)
          | inr (inr failed) ↦ ground (arith, below, failed, kept)
        ]

    handle_solved-OnlySends :
        (header : BlockHeader) (hash target : ℕ) (s : Session B F)
        → above (of_int hash) cfg.difficulty_info.target ≡ true
        → OnlySends s (handle_solved chain cfg codecs now req header hash target s).1
    unfolding handle_solved
    handle_solved-OnlySends header hash target s high =
        ground (arith, high, reject_work-OnlySends 23 s)

    abbrev pub Effects : Bool → Session B F → Session B F → Type 0
    Effects allowed s s' =
        OnlySends s s'
        ⊎ ((header : BlockHeader) × (target : ℕ) × (hash : ℕ) × (allowed ≡ true)
            × (solved_submission chain cfg codecs req s ≡ ok (header, target))
            × (hash_target chain cfg.difficulty_info header ≡ ok hash)
            × (above (of_int hash) cfg.difficulty_info.target ≡ false)
            × ((s'.client ≡ (counted s).client)
                × ((s'.submitted ≡ s.submitted) ⊎ ((hash ≤ target) × Submits header s s'))))

    -- A submission leaves everything but the messages for the client as it was, unless it was allowed and
    -- solves a job's header: the hash of the header is not above the pool's target. Then it counts for
    -- the client, and what the daemon is given is at most the data of that header, and only where its
    -- hash is not above the network's target either.
    pub handle_submit_work_request-Effects :
        (allowed : Bool) (s : Session B F)
        → let s' = (handle_submit_work_request chain cfg codecs now req allowed s).1 in
          Effects allowed s s'
    unfolding handle_submit_work_request run_or_reject
    handle_submit_work_request-Effects false s = inl (reject_work-OnlySends 20 s)
    handle_submit_work_request-Effects true s =
        elim (result_cases (solved_submission chain cfg codecs req s)) [
          | inr (inr failed) ↦ inl (ground (arith, failed))
          | inr (inl (e, failed)) ↦ inl (ground (arith, failed, reject_work-OnlySends 20 s))
          | inl ((header, target), solved) ↦ by_hash header target solved
        ]
      where
        by_hash :
            (header : BlockHeader) (target : ℕ)
            → solved_submission chain cfg codecs req s ≡ ok (header, target)
            → Effects true s (handle_submit_work_request chain cfg codecs now req true s).1
        by_hash header target solved =
            elim (result_cases (hash_target chain cfg.difficulty_info header)) [
              | inr (inr failed) ↦ inl (ground (arith, solved, failed))
              | inr (inl (e, failed)) ↦ inl (ground (arith, solved, failed))
              | inl (hash, hashed) ↦
                  elim (Bool-cases (above (of_int hash) cfg.difficulty_info.target)) [
                    | inl high ↦ inl (
                        ground (
                          arith,
                          solved,
                          hashed,
                          handle_solved-OnlySends header hash target s high,
                        ))
                    | inr below ↦ inr (
                      header,
                      target,
                      hash,
                      refl,
                      solved,
                      hashed,
                      below,
                      ground
                          (arith, solved, hashed, handle_solved-Submits header hash target s below),
                    )
                  ]
            ]
