-- ===== src/Work/Updates.antt =====
-- pool/acceptedwork.go, Create and Update of accepted work.
use eacrpool.Prelude.{
  ◌≡◌, true, ◌&&◌, Option, none, some, arith, Option-cases, inl, inr, if◌then◌else◌,
}
use eacrpool.Errors.{Result, ok, err, make_error, work_exists, work_not_found}
use eacrpool.Bytes.{Bytes, equal}
use eacrpool.Bolt.{Bolt}
use eacrpool.Json.{Json}
use eacrpool.Db.{BucketName, Db, work_bkt, same_name, fetch_bucket, update}
use eacrpool.Db.Records.{HasBucket, find, put_value, put_value-ok, find-put_value, fetch-put_value}
use eacrpool.Work.{AcceptedWork, fetch_accepted_work, create_work, update_work}

module _ {B : Bolt} (json : Json AcceptedWork) (work : AcceptedWork) (d : Db B) where
  abbrev pub stored : Bytes
  stored = json.marshal work

  -- the database after a call that stored the work, against the one before
  abbrev pub Stores : Result (Unit {0}) × Db B → Type 0
  Stores (r, d') =
      (r ≡ ok tt)
      × (fetch_accepted_work json work.uuid d' ≡ ok work)
      × ((m : BucketName) (j : Bytes)
          → find m j d'
            ≡ (if same_name work_bkt m && equal work.uuid j then some stored else find m j d))

  put_value-Stores :
      HasBucket work_bkt d
      → B.fits work.uuid stored ≡ true
      → Stores (update (put_value work_bkt work.uuid stored) d)
  unfolding fetch_accepted_work
  put_value-Stores b f = (
    put_value-ok work_bkt work.uuid stored d b f,
    fetch-put_value json work_bkt work.uuid work d b f,
    λ m j. find-put_value work_bkt m work.uuid stored j d b f,
  )

  update_work-missing :
      HasBucket work_bkt d
      → find work_bkt work.uuid d ≡ none
      → update_work json work d ≡ (err (make_error work_not_found), d)
  unfolding update_work update fetch_bucket
  update_work-missing b new = ground arith

  create_work-exists :
      {v : Bytes}
      → find work_bkt work.uuid d ≡ some v
      → create_work json work d ≡ (err (make_error work_exists), d)
  unfolding create_work update fetch_bucket
  create_work-exists old = ground arith

  create_work-eq-put_value :
      find work_bkt work.uuid d ≡ none
      → create_work json work d ≡ update (put_value work_bkt work.uuid stored) d
  unfolding create_work update fetch_bucket put_value
  create_work-eq-put_value new = ground arith

  update_work-eq-put_value :
      {v : Bytes}
      → find work_bkt work.uuid d ≡ some v
      → update_work json work d ≡ update (put_value work_bkt work.uuid stored) d
  unfolding update_work update fetch_bucket put_value
  update_work-eq-put_value old = ground arith

  -- what Create does, by what its id holds
  abbrev pub Creates : Option Bytes → Result (Unit {0}) × Db B → Type 0
  Creates (some v) r = r ≡ (err (make_error work_exists), d)
  Creates none r = Stores r

  -- what Update does, by what its id holds
  abbrev pub Updates : Option Bytes → Result (Unit {0}) × Db B → Type 0
  Updates (some v) r = Stores r
  Updates none r = r ≡ (err (make_error work_not_found), d)

  create_work-Creates :
      HasBucket work_bkt d
      → B.fits work.uuid stored ≡ true
      → Creates (find work_bkt work.uuid d) (create_work json work d)
  create_work-Creates b f = elim (Option-cases (find work_bkt work.uuid d)) [
    | inl new ↦ rw (new, create_work-eq-put_value new) (put_value-Stores b f)
    | inr (v, old) ↦ rw old (create_work-exists old)
  ]

  update_work-Updates :
      HasBucket work_bkt d
      → B.fits work.uuid stored ≡ true
      → Updates (find work_bkt work.uuid d) (update_work json work d)
  update_work-Updates b f = elim (Option-cases (find work_bkt work.uuid d)) [
    | inl new ↦ rw new (update_work-missing b new)
    | inr (v, old) ↦ rw (old, update_work-eq-put_value old) (put_value-Stores b f)
  ]

  -- Where the work bucket is there and Bolt takes the pair, Create refuses an id that is taken and
  -- changes nothing, and stores new work; Update refuses an id that is not there and changes nothing,
  -- and replaces existing work. What was stored is fetched under its id, and no other key of any bucket
  -- is changed.
  pub work_branches :
      HasBucket work_bkt d
      → B.fits work.uuid stored ≡ true
      → Creates (find work_bkt work.uuid d) (create_work json work d)
        × Updates (find work_bkt work.uuid d) (update_work json work d)
  work_branches b f = (create_work-Creates b f, update_work-Updates b f)
