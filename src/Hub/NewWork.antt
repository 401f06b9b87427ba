-- ===== src/Hub/NewWork.antt =====
-- pool/hub.go, processWork.
use eacrpool.Prelude.{ℕ, ◌≤◌, ◌≡◌, refl, true, false, some, arith, length, ltb}
use eacrpool.Errors.{ok}
use eacrpool.Bytes.{Bytes}
use eacrpool.Bolt.{Bolt}
use eacrpool.Json.{Json}
use eacrpool.Db.{Db, job_bkt}
use eacrpool.Db.Records.{HasBucket, fetch-put_value}
use eacrpool.Job.{Job, generate_job_id, new_job, create_job, fetch_job}
use eacrpool.ChainState.{ChainState, set_last_work_height}
use eacrpool.Hub.{Hub, has_clients, work_height, process_work}

not_ltb : (a b : ℕ) → b ≤ a → ltb a b ≡ false
not_ltb a b h = ground arith

module _ {B : Bolt} (json : Json Job) (now : ℕ) (h : Hub) (header_e : Bytes) (height : ℕ)
    (cs : ChainState) (d : Db B) where
  process_work_stored :
      work_height header_e ≡ ok (some height)
      → has_clients h ≡ true
      → ltb (length header_e) 360 ≡ false
      → process_work json now h header_e (cs, d) ≡ (
        ok tt,
        (set_last_work_height height cs, (create_job json (new_job now header_e height) d).1),
      )
  unfolding process_work
  process_work_stored at_height clients long = rw (process_work, at_height, clients, long) refl

  -- Where work of at least 360 characters has a height, there are clients, the job bucket is there and
  -- Bolt takes the job, processWork notes the height, and the job that it stores is fetched under an id
  -- of that height with the work's header.
  pub process_work_stores :
      work_height header_e ≡ ok (some height)
      → has_clients h ≡ true
      → 360 ≤ length header_e
      → HasBucket job_bkt d
      → B.fits (generate_job_id now height) (json.marshal (new_job now header_e height)) ≡ true
      → let (r, (cs', d')) = process_work json now h header_e (cs, d) in
        (r ≡ ok tt)
        × (cs'.last_work_height ≡ height)
        × (fetch_job json (generate_job_id now height) d' ≡ ok (new_job now header_e height))
  unfolding set_last_work_height create_job fetch_job new_job
  process_work_stores at_height clients long there fits =
      let fetched =
        fetch-put_value json job_bkt (generate_job_id now height) (new_job now header_e height) d
          there fits in
      rw (process_work_stored at_height clients (not_ltb (length header_e) 360 long))
        (refl, refl, fetched)
