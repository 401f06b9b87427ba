-- ===== src/ChainState/Connected/Confirms.antt =====
-- pool/chainstate.go, the handler of connected blocks: the work of the parent.
use eacrpool.Prelude.{
  ℕ, ◌+◌, ◌-◌, ◌%◌, ◌^◌, ◌≡◌, refl, ◌∙◌, Bool, true, false, none, some, arith, ltb, Bool-cases, ◌⊎◌,
  inl, inr, if◌then◌else◌,
}
use eacrpool.Errors.{Result, ok, panic, result_cases}
use eacrpool.Bytes.{Bytes, equal_refl}
use eacrpool.Bolt.{Bolt}
use eacrpool.Int64.{Int64}
use eacrpool.Json.{Json}
use eacrpool.Ids.{decode_prefix, big_endian_bytes_to_height, height_to_big_endian_bytes}
use eacrpool.Exec.{Exec, pure}
use eacrpool.Db.{BucketName, Db, job_bkt, work_bkt, fetch_bucket, update, put}
use eacrpool.Db.Records.{find, decoded, fetch_value}
use eacrpool.Db.Kept.{fetch_bucket-prune_tx, prune_tx-keeps}
use eacrpool.Db.Prune.{verdict}
use eacrpool.Job.{prune_jobs, is_job_below}
use eacrpool.Work.{
  AcceptedWork, accepted_work_id, fetch_accepted_work, update_work, update_work_tx,
  prune_accepted_work, is_work_stale,
}
use eacrpool.Payment.{Payment}
use eacrpool.PaymentMgr.Schemes.{State, on_db}
use eacrpool.ChainState.{
  BlockHeader, ChainStateConfig, Handling, close_done, stop, attempt, prune_below, new_payments,
  coinbase_of, handle_connected,
}

-- An Update that succeeds has stored the work.
update_work-stores :
    (json : Json AcceptedWork) {B : Bolt} (work : AcceptedWork) (d : Db B)
    → (update_work json work d).0 ≡ ok tt
    → find work_bkt work.uuid (update_work json work d).1 ≡ some (json.marshal work)
unfolding update_work update_work_tx update fetch_bucket put
update_work-stores json work none done = absurd (ground arith)
update_work-stores json {B} work (some p) done =
    elim (result_cases (fetch_bucket work_bkt (some p))) [
      | inl (b, found) ↦
          ground
            (arith, B.lookup-store b work.uuid (json.marshal work) work.uuid, equal_refl work.uuid)
      | inr (inl (x, failed)) ↦ absurd (ground arith)
      | inr (inr failed) ↦ absurd (ground arith)
    ]

is_work_stale-confirmed :
    (json : Json AcceptedWork) (limit : ℕ) (k : Bytes) (work : AcceptedWork)
    → work.confirmed ≡ true
    → verdict (is_work_stale json limit (k, json.marshal work)) ≡ false
unfolding is_work_stale decoded
is_work_stale-confirmed json limit k work mined = elim (result_cases (decode_prefix k)) [
  | inl (b, prefix) ↦ elim (result_cases (big_endian_bytes_to_height b)) [
    | inl (h, height) ↦ ground (arith, json.unmarshal-marshal work)
    | inr (inl (x, failed)) ↦ ground arith
    | inr (inr failed) ↦ ground arith
  ]
  | inr (inl (x, failed)) ↦ ground arith
  | inr (inr failed) ↦ ground arith
]

module _ {B : Bolt} (P : Handling B → Type 0) where
  -- The handler panicked, cancelled the pool, or came to such a state.
  abbrev pub Ends : Result (Unit {0}) × Handling B → Type 0
  Ends (r, h) = (r ≡ panic) ⊎ (h.cancelled ≡ true) ⊎ P h

  attempt-Ends :
      {A : Type 0} (act : Exec (State B) A) (next : A → Exec (Handling B) (Unit {0}))
      (h : Handling B)
      → h.closed ≡ false
      → ((a : A) → (act h.books).0 ≡ ok a → Ends (next a (record h { books = (act h.books).1 })))
      → Ends (attempt true act next h)
  unfolding attempt stop close_done
  attempt-Ends act next h open' rest = elim (result_cases (act h.books).0) [
    | inl (a, done) ↦ rw (attempt, done) (rest a done)
    | inr (inl (e, failed)) ↦ inr (inl (ground arith))
    | inr (inr failed) ↦ inl (ground arith)
  ]

  attempt_known-Ends :
      {A : Type 0} (cancels : Bool) (act : Exec (State B) A)
      (next : A → Exec (Handling B) (Unit {0})) (h : Handling B) (a : A)
      → (act h.books).0 ≡ ok a
      → Ends (next a (record h { books = (act h.books).1 }))
      → Ends (attempt cancels act next h)
  unfolding attempt
  attempt_known-Ends cancels act next h a done rest = rw (attempt, done) rest

fetch_bucket-prune_below :
    {B : Bolt} (height : ℕ) (s : State B)
    → fetch_bucket work_bkt (prune_below (λ limit. on_db (prune_jobs limit)) height s).1.db
      ≡ fetch_bucket work_bkt s.db
unfolding prune_jobs
fetch_bucket-prune_below height s = elim (Bool-cases (ltb 6 height)) [
  | inl deep ↦ rw deep (
      fetch_bucket-prune_tx job_bkt (is_job_below (height_to_big_endian_bytes (height - 6)))
        work_bkt s.db refl)
  | inr shallow ↦ rw shallow refl
]

fetch_value-eq :
    {A : Type 0} (json : Json A) {B : Bolt} (n : BucketName) (id : Bytes) (d e : Db B)
    → fetch_bucket n d ≡ fetch_bucket n e
    → fetch_value json n id d ≡ fetch_value json n id e
unfolding fetch_value
fetch_value-eq json n id d e same = ground arith

prune_below-keeps :
    (json : Json AcceptedWork) {B : Bolt} (height : ℕ) (k : Bytes) (work : AcceptedWork)
    (s : State B)
    → (prune_below (λ limit. on_db (prune_accepted_work json limit)) height s).0 ≡ ok tt
    → work.confirmed ≡ true
    → find work_bkt k s.db ≡ some (json.marshal work)
    → find work_bkt k (prune_below (λ limit. on_db (prune_accepted_work json limit)) height s).1.db
      ≡ some (json.marshal work)
unfolding prune_accepted_work
prune_below-keeps json height k work s done mined there = elim (Bool-cases (ltb 6 height)) [
  | inl deep ↦ rw deep (
      prune_tx-keeps work_bkt (is_work_stale json (height - 6)) k (json.marshal work) s.db
        (rw deep at done) (is_work_stale-confirmed json (height - 6) k work mined) there)
  | inr shallow ↦ rw shallow there
]

new_payments-keeps :
    {B : Bolt} (cfg : ChainStateConfig B) (json : Json AcceptedWork) (payment_json : Json Payment)
    (header : BlockHeader) (k : Bytes) (s : State B)
    → ((height : ℕ) (coinbase : Int64) (t : State B)
        → find work_bkt k (cfg.generate_payments height coinbase t).1.db ≡ find work_bkt k t.db)
    → find work_bkt k (new_payments cfg json payment_json header s).1.db ≡ find work_bkt k s.db
unfolding new_payments
new_payments-keeps cfg json payment_json header k s keeps =
    elim (result_cases (cfg.get_block header.prev_block)) [
      | inl (block, got) ↦ elim (result_cases (coinbase_of block)) [
        | inl (coinbase, paid) ↦ ground (arith, keeps block.height coinbase s)
        | inr (inl (e, failed)) ↦ ground arith
        | inr (inr failed) ↦ ground arith
      ]
      | inr (inl (e, failed)) ↦ ground arith
      | inr (inr failed) ↦ ground arith
    ]

-- the id under which the work of a block's parent is stored
abbrev pub parent_id : BlockHeader → Bytes
parent_id header = accepted_work_id header.prev_block ((header.height + 2 ^ 32 - 1) % 2 ^ 32)

module _ {B : Bolt} (cfg : ChainStateConfig B) (json : Json AcceptedWork)
    (payment_json : Json Payment) (bytes : Bytes) (header : BlockHeader) (work : AcceptedWork)
    (h : Handling B) where
  abbrev mined : AcceptedWork
  mined = record work { confirmed = true }

  after_payments :
      (s : State B)
      → ((height : ℕ) (coinbase : Int64) (t : State B)
          → find work_bkt work.uuid (cfg.generate_payments height coinbase t).1.db
            ≡ find work_bkt work.uuid t.db)
      → find work_bkt work.uuid
          ((if cfg.solo_pool then pure tt else new_payments cfg json payment_json header) s).1.db
        ≡ find work_bkt work.uuid s.db
  unfolding new_payments
  after_payments s keeps = elim (Bool-cases cfg.solo_pool) [
    | inl solo ↦ rw solo refl
    | inr pool ↦ rw pool (new_payments-keeps cfg json payment_json header work.uuid s keeps)
  ]

  -- Where the header of a connected block parses, paying dividends succeeds, the work of the parent is
  -- stored and generating payments does not touch it, the work is stored as confirmed at the end,
  -- unless the handler panics or cancels the pool.
  pub handle_connected_confirms :
      h.closed ≡ false
      → cfg.from_bytes bytes ≡ ok header
      → (cfg.pay_dividends header.height h.books).0 ≡ ok tt
      → fetch_accepted_work json (parent_id header) (cfg.pay_dividends header.height h.books).1.db
        ≡ ok work
      → ((height : ℕ) (coinbase : Int64) (t : State B)
          → find work_bkt work.uuid (cfg.generate_payments height coinbase t).1.db
            ≡ find work_bkt work.uuid t.db)
      → Ends
          (λ h'. find work_bkt work.uuid h'.books.db ≡ some (json.marshal mined))
          (handle_connected cfg json payment_json bytes h)
  unfolding handle_connected fetch_accepted_work close_done
  handle_connected_confirms open' parsed paid fetched keeps =
      let P =
        λ (h' : Handling B). find work_bkt work.uuid h'.books.db ≡ some (json.marshal mined) in
      let s1 = (cfg.pay_dividends header.height h.books).1 in
      let s2 = (prune_below (λ limit. on_db (prune_jobs limit)) header.height s1).1 in
      let s3 = record s2 { db = (update_work json mined s2.db).1 } in
      let s4 = (prune_below (λ limit. on_db (prune_accepted_work json limit)) header.height s3).1 in
      attempt_known-Ends P _ _ _ h header parsed (
        attempt_known-Ends P _ _ _ h tt paid (
          attempt-Ends P _ _ (record h { books = s1 }) open'
            (λ _ pruned.
              attempt_known-Ends P _ _ _ _ work
                (fetch_value-eq json work_bkt (parent_id header) _ s1.db
                    (fetch_bucket-prune_below header.height s1)
                  ∙ fetched)
                (attempt-Ends P _ _ _ open' (λ _ updated. attempt-Ends P _ _ _ open' (λ _ done.
                  attempt-Ends P _ _ _ open' (λ _ made.
                    let stored = update_work-stores json mined s2.db updated in
                    let kept =
                      prune_below-keeps json header.height work.uuid mined s3 done refl stored in
                    rw (close_done, open') (inr (inr (after_payments s4 keeps ∙ kept))))))))))
