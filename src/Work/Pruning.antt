-- ===== src/Work/Pruning.antt =====
-- pool/acceptedwork.go, PruneAcceptedWork.
use eacrpool.Prelude.{
  ℕ, ◌^◌, ◌<◌, ◌≡◌, refl, ◌∙◌, Bool, false, not, ◌&&◌, Option, none, some, List, [], ◌∷◌, arith,
  All, ltb, if◌then◌else◌,
}
use eacrpool.Errors.{ok, ◌>>=◌}
use eacrpool.Bytes.{Bytes, put_uint32_be}
use eacrpool.Bytes.Codec.{uint32_be-put_uint32_be}
use eacrpool.Bolt.{Bolt}
use eacrpool.Json.{Json}
use eacrpool.Ids.{HasHeight, decode_prefix-HasHeight, big_endian_bytes_to_height}
use eacrpool.Db.{BucketName, Db, work_bkt, same_name, same_name-eq, fetch_bucket}
use eacrpool.Db.Records.{find, decoded}
use eacrpool.Db.Prune.{prune_exact, unless, verdict}
use eacrpool.Work.{AcceptedWork, is_work_stale, prune_accepted_work}

module _ (json : Json AcceptedWork) where
  -- the stored bytes decode to work that no block has confirmed
  abbrev pub is_unconfirmed : Bytes → Bool
  is_unconfirmed v = elim (json.unmarshal v) [ none ↦ false | some w ↦ not w.confirmed ]

  -- Every key starts with a height, and every value decodes.
  abbrev pub HasWork : List (Bytes × Bytes) → Type 0
  HasWork =
      All (λ e. (h : ℕ) × HasHeight h e.0 × ((w : AcceptedWork) × (json.unmarshal e.1 ≡ some w)))

  big_endian-put : (h : ℕ) → h < 2 ^ 32 → big_endian_bytes_to_height (put_uint32_be h) ≡ ok h
  unfolding big_endian_bytes_to_height
  big_endian-put h small = ground (arith, uint32_be-put_uint32_be h small)

  is_work_stale_lem :
      (limit h : ℕ) (k v : Bytes)
      → HasHeight h k
      → is_work_stale json limit (k, v)
        ≡ (if ltb h limit then (decoded json v >>= λ w. ok (not w.confirmed)) else ok false)
  unfolding is_work_stale
  is_work_stale_lem limit h k v p = rw (decode_prefix-HasHeight h k p, big_endian-put h p.bounded)

  verdicts :
      (limit : ℕ) (l : List (Bytes × Bytes))
      → HasWork l
      → All (λ e. is_work_stale json limit e ≡ ok (verdict (is_work_stale json limit e))) l
  unfolding decoded
  verdicts limit [] all = tt
  verdicts limit ((k, v) ∷ l) ((h, p, (w, e)), all) =
      (ground (arith, is_work_stale_lem limit h k v p), verdicts limit l all)

  -- what pruning leaves of the value under a key of height `h`
  abbrev pub survivor : ℕ → ℕ → Option Bytes → Option Bytes
  survivor limit h none = none
  survivor limit h (some v) = if ltb h limit && is_unconfirmed v then none else some v

  unless_stale :
      (limit h : ℕ) (k : Bytes) (o : Option Bytes)
      → HasHeight h k
      → unless (λ e. verdict (is_work_stale json limit e)) k o ≡ survivor limit h o
  unfolding decoded
  unless_stale limit h k none p = refl
  unless_stale limit h k (some v) p = rw (is_work_stale_lem limit h k v p) (ground arith)

  -- On a bucket whose keys start with heights and whose values decode, PruneAcceptedWork succeeds: it
  -- deletes the work under an id exactly if the id's height is below the limit and the work is not
  -- confirmed, and no other bucket changes.
  pub prune_accepted_work_exact :
      {B : Bolt} (limit : ℕ) {b : B.Bucket} (d : Db B) (h : ℕ) (k : Bytes)
      → fetch_bucket work_bkt d ≡ ok b
      → HasWork (B.entries b)
      → HasHeight h k
      → let (r, d') = prune_accepted_work json limit d in
        (r ≡ ok tt)
        × (find work_bkt k d' ≡ survivor limit h (find work_bkt k d))
        × ((m : BucketName) (j : Bytes)
            → find m j d' ≡ (if same_name work_bkt m then find work_bkt j d' else find m j d))
  unfolding prune_accepted_work
  prune_accepted_work_exact {B} limit {b} d h k found all p =
      let (done, kept) =
        prune_exact work_bkt (is_work_stale json limit) (λ e. verdict (is_work_stale json limit e))
          d found (verdicts limit (B.entries b) all) in
      (
        done,
        kept work_bkt k ∙ unless_stale limit h k (find work_bkt k d) p,
        λ m j. ground (arith, kept m j, kept work_bkt j, same_name-eq work_bkt m),
      )
