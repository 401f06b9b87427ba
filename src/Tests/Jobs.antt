-- ===== src/Tests/Jobs.antt =====
-- Pruning a bucket of two jobs.
use eacrpool.Prelude.{◌≡◌, refl, none, some, [], ◌∷◌, arith, if◌then◌else◌}
use eacrpool.Errors.{ok}
use eacrpool.Bytes.{Bytes, hex_encode, hex_digit, put_uint32_be, put_uint64_be, equal, less}
use eacrpool.Ids.{height_to_big_endian_bytes, nano_to_big_endian_bytes}
use eacrpool.Db.{BucketName, Db, job_bkt, fetch_bucket, same_name}
use eacrpool.Db.Records.{find}
use eacrpool.Job.{generate_job_id, new_job, prune_jobs}
use eacrpool.Job.Pruning.{generate_job_id-HasHeight, prune_jobs_exact}
use eacrpool.Tests.Store.{Pairs, store, insert}
use eacrpool.Tests.Codecs.{job_json}
use eacrpool.Tests.Fixtures.{pool, filled, only_jobs}

abbrev old_id : Bytes
old_id = generate_job_id 1 5

abbrev two_jobs : Pairs
two_jobs =
    (old_id, job_json.marshal (new_job 1 [] 5))
    ∷ (generate_job_id 2 9, job_json.marshal (new_job 2 [] 9))
    ∷ []

abbrev jobs_db : Db store
jobs_db = some (pool (only_jobs two_jobs))

prune_jobs_exact_example :
    let (r, d) = prune_jobs 7 jobs_db in
    (r ≡ ok tt)
    × (find job_bkt old_id d ≡ none)
    × ((m : BucketName) (j : Bytes)
        → find m j d ≡ (if same_name job_bkt m then find job_bkt j d else find m j jobs_db))
unfolding generate_job_id height_to_big_endian_bytes nano_to_big_endian_bytes hex_encode hex_digit
    put_uint32_be put_uint64_be equal less filled insert fetch_bucket
prune_jobs_exact_example =
    prune_jobs_exact 7 jobs_db 5 old_id (omega arith) refl
      (
        (5, generate_job_id-HasHeight 1 5 (omega arith)),
        ((9, generate_job_id-HasHeight 2 9 (omega arith)), tt),
      )
      (generate_job_id-HasHeight 1 5 (omega arith))
