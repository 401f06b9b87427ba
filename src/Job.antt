-- ===== src/Job.antt =====
-- pool/job.go: jobs, the cached copies of work that clients get.
pub mod Pruning
use eacrpool.Prelude.{ℕ, Bool, ◌++◌}
use eacrpool.Errors.{Result, ok, err, make_error, not_supported, ◌>>=◌}
use eacrpool.Bytes.{Bytes, less, hex_encode}
use eacrpool.Bolt.{Bolt}
use eacrpool.Json.{Json}
use eacrpool.Ids.{height_to_big_endian_bytes, nano_to_big_endian_bytes, decode_prefix}
use eacrpool.Db.{Db, job_bkt, update}
use eacrpool.Db.Buckets.{delete_entry}
use eacrpool.Db.Records.{fetch_value, put_value}
use eacrpool.Db.Prune.{prune_tx}

pub record Job : Type 0 where
  pub uuid : Bytes
  pub height : ℕ
  pub header : Bytes

-- The clock's reading `now` is an argument here and below.
unfoldable pub generate_job_id : ℕ → ℕ → Bytes
unfolding height_to_big_endian_bytes nano_to_big_endian_bytes
generate_job_id now height =
    hex_encode (height_to_big_endian_bytes height ++ nano_to_big_endian_bytes now)

unfoldable pub new_job : ℕ → Bytes → ℕ → Job
unfolding generate_job_id
new_job now header height = record {
  uuid = generate_job_id now height;
  height = height;
  header = header;
}

module _ {B : Bolt} where
  unfoldable pub fetch_job : Json Job → Bytes → Db B → Result Job
  fetch_job json id = fetch_value json job_bkt id

  -- `Create`
  unfoldable pub create_job : Json Job → Job → Db B → Result (Unit {0}) × Db B
  create_job json job = update (put_value job_bkt job.uuid (json.marshal job))

  -- `Update`
  unfoldable pub update_job : Job → Db B → Result (Unit {0}) × Db B
  update_job job d = (err (make_error not_supported), d)

  -- `Delete`
  unfoldable pub delete_job : Job → Db B → Result (Unit {0}) × Db B
  delete_job job = delete_entry job_bkt job.uuid

-- whether PruneJobs notes the key of an entry for deletion
unfoldable pub is_job_below : Bytes → Bytes × Bytes → Result Bool
is_job_below height_be (k, v) = decode_prefix k >>= λ height. ok (less height height_be)

module _ {B : Bolt} where
  unfoldable pub prune_jobs : ℕ → Db B → Result (Unit {0}) × Db B
  prune_jobs height = update (prune_tx job_bkt (is_job_below (height_to_big_endian_bytes height)))
