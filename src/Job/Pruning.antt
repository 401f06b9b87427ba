-- ===== src/Job/Pruning.antt =====
-- pool/job.go, PruneJobs.
use eacrpool.Prelude.{
  ℕ, ◌^◌, ◌<◌, ◌≡◌, ap, ◌∙◌, Option, none, some, List, [], ◌∷◌, arith, All, ltb, if◌then◌else◌,
}
use eacrpool.Errors.{ok}
use eacrpool.Bytes.{Bytes, hex_encode, put_uint32_be, put_uint64_be}
use eacrpool.Bytes.Codec.{less-put_uint32_be, hex_encode-append}
use eacrpool.Bolt.{Bolt}
use eacrpool.Ids.{HasHeight, decode_prefix-HasHeight, height_to_big_endian_bytes}
use eacrpool.Db.{BucketName, Db, job_bkt, same_name, same_name-eq, fetch_bucket}
use eacrpool.Db.Records.{find}
use eacrpool.Db.Prune.{prune_exact, unless, verdict}
use eacrpool.Job.{generate_job_id, is_job_below, prune_jobs}

-- The id of a new job starts with its height.
pub generate_job_id-HasHeight :
    (now height : ℕ) → height < 2 ^ 32 → HasHeight height (generate_job_id now height)
unfolding generate_job_id
generate_job_id-HasHeight now height h = record {
  bounded = h;
  rest = hex_encode (put_uint64_be now);
  shape = hex_encode-append (put_uint32_be height) (put_uint64_be now);
}

is_job_below_lem :
    (limit h : ℕ) (k v : Bytes)
    → limit < 2 ^ 32
    → HasHeight h k
    → is_job_below (height_to_big_endian_bytes limit) (k, v) ≡ ok (ltb h limit)
unfolding is_job_below height_to_big_endian_bytes
is_job_below_lem limit h k v small p =
    rw (decode_prefix-HasHeight h k p) (ap ok (less-put_uint32_be h limit p.bounded small))

-- Every key of the bucket is an id that starts with a height.
abbrev pub HasJobIds : List (Bytes × Bytes) → Type 0
HasJobIds = All (λ e. (h : ℕ) × HasHeight h e.0)

verdicts :
    (limit : ℕ) (l : List (Bytes × Bytes))
    → limit < 2 ^ 32
    → HasJobIds l
    → All
        (λ e. let f = is_job_below (height_to_big_endian_bytes limit) in f e ≡ ok (verdict (f e)))
        l
verdicts limit [] small ids = tt
verdicts limit ((k, v) ∷ l) small ((h, p), ids) =
    (cc (is_job_below_lem limit h k v small p), verdicts limit l small ids)

unless_below :
    (limit h : ℕ) (k : Bytes) (o : Option Bytes)
    → limit < 2 ^ 32
    → HasHeight h k
    → unless (λ e. verdict (is_job_below (height_to_big_endian_bytes limit) e)) k o
      ≡ (if ltb h limit then none else o)
unless_below limit h k none small p = ground arith
unless_below limit h k (some v) small p = rw (is_job_below_lem limit h k v small p)

-- On a bucket of job ids PruneJobs succeeds: an id of a height below the limit is gone, an id of any
-- other height keeps its job, and no other bucket changes.
pub prune_jobs_exact :
    {B : Bolt} (limit : ℕ) {b : B.Bucket} (d : Db B) (h : ℕ) (k : Bytes)
    → limit < 2 ^ 32
    → fetch_bucket job_bkt d ≡ ok b
    → HasJobIds (B.entries b)
    → HasHeight h k
    → let (r, d') = prune_jobs limit d in
      (r ≡ ok tt)
      × (find job_bkt k d' ≡ (if ltb h limit then none else find job_bkt k d))
      × ((m : BucketName) (j : Bytes)
          → find m j d' ≡ (if same_name job_bkt m then find job_bkt j d' else find m j d))
unfolding prune_jobs
prune_jobs_exact {B} limit {b} d h k small found ids p =
    let (done, kept) =
      prune_exact job_bkt (is_job_below (height_to_big_endian_bytes limit))
        (λ e. verdict (is_job_below (height_to_big_endian_bytes limit) e)) d found
        (verdicts limit (B.entries b) small ids) in
    (
      done,
      kept job_bkt k ∙ unless_below limit h k (find job_bkt k d) small p,
      λ m j. ground (arith, kept m j, kept job_bkt j, same_name-eq job_bkt m),
    )
