-- ===== src/Db/Records.antt =====
-- The two transactions that the record types share, with their laws: read and decode the value under
-- an id (FetchJob, FetchAcceptedWork, FetchAccount, GetPayment), and encode and store one (Create).
use eacrpool.Prelude.{
  ◌≡◌, refl, ◌⊎◌, inl, inr, true, false, ◌&&◌, Option, none, some, arith, if◌then◌else◌, Bool-cases,
}
use eacrpool.Errors.{
  Error, Result, ok, err, panic, foreign, result_cases, make_error, value_not_found,
}
use eacrpool.Bytes.{Bytes, equal, equal_refl}
use eacrpool.Bolt.{Bolt, lookup}
use eacrpool.Json.{Json}
use eacrpool.Db.State.{
  BucketName, Db, Tx, same_name, same_name-eq, same_name_refl, update, fetch_bucket, write, put,
}

module _ {A : Type 0} (json : Json A) where
  -- json.Unmarshal
  unfoldable pub decoded : Bytes → Result A
  decoded v = elim (json.unmarshal v) [ none ↦ err foreign | some a ↦ ok a ]

  unfoldable pub fetch_value : {B : Bolt} → BucketName → Bytes → Db B → Result A
  unfolding decoded fetch_bucket
  fetch_value {B} n id d = elim (fetch_bucket n d) [
    | err e ↦ err e
    | panic ↦ panic
    | ok b ↦ elim (lookup id (B.entries b)) [
      | none ↦ err (make_error value_not_found)
      | some v ↦ decoded v
    ]
  ]

fetch_bucket-no_panic : {B : Bolt} (n : BucketName) (d : Db B) → ¬ (fetch_bucket n d ≡ panic)
unfolding fetch_bucket
fetch_bucket-no_panic n none h = ground arith
fetch_bucket-no_panic n (some p) h = ground arith

module _ {B : Bolt} where
  -- the bytes under a key of a nested bucket
  abbrev pub find : BucketName → Bytes → Db B → Option Bytes
  find n k none = none
  find n k (some p) = elim (p.nested n) [ none ↦ none | some b ↦ lookup k (B.entries b) ]

  -- the pool bucket and the nested one are there
  abbrev pub HasBucket : BucketName → Db B → Type 0
  HasBucket n d = (b : B.Bucket) × (fetch_bucket n d ≡ ok b)

  unfoldable pub put_value : BucketName → Bytes → Bytes → Tx B (Unit {0})
  unfolding fetch_bucket
  put_value n id v d = elim (fetch_bucket n d) [
    | err e ↦ err e
    | panic ↦ panic
    | ok b ↦ elim (put B b id v) [ ok b' ↦ write n b' d | err e ↦ err e | panic ↦ panic ]
  ]

  -- What every key holds after a stored pair.
  pub find-put_value :
      (n m : BucketName) (k v j : Bytes) (d : Db B)
      → HasBucket n d
      → B.fits k v ≡ true
      → find m j (update (put_value n k v) d).1
        ≡ (if same_name n m && equal k j then some v else find m j d)
  unfolding put_value put update
  find-put_value n m k v j none (b, h) f = ground arith
  find-put_value n m k v j (some p) (b, h) f =
      ground (arith, B.lookup-store b k v j, same_name-eq n m, same_name_refl n)

  pub put_value-ok :
      (n : BucketName) (k v : Bytes) (d : Db B)
      → HasBucket n d
      → B.fits k v ≡ true
      → (update (put_value n k v) d).0 ≡ ok tt
  unfolding put_value put update
  put_value-ok n k v none (b, h) f = ground arith
  put_value-ok n k v (some p) (b, h) f = ground arith

  -- What was stored under an id is fetched, and decodes to the same record.
  pub fetch-put_value :
      {A : Type 0} (json : Json A) (n : BucketName) (id : Bytes) (a : A) (d : Db B)
      → HasBucket n d
      → B.fits id (json.marshal a) ≡ true
      → fetch_value json n id (update (put_value n id (json.marshal a)) d).1 ≡ ok a
  unfolding put_value put update fetch_value fetch_bucket
  fetch-put_value json n id a none (b, h) f = ground arith
  fetch-put_value json n id a (some p) (b, h) f = ground (
    arith,
    B.lookup-store b id (json.marshal a) id,
    equal_refl id,
    same_name_refl n,
    json.unmarshal-marshal a,
  )

  -- No bucket is lost by a stored pair.
  pub put_value-HasBucket :
      (n m : BucketName) (k v : Bytes) (d : Db B)
      → HasBucket m d
      → HasBucket m (update (put_value n k v) d).1
  unfolding put_value put update fetch_bucket
  put_value-HasBucket n m k v none (b, there) = absurd (ground arith)
  put_value-HasBucket n m k v (some p) (b, there) = elim (result_cases (fetch_bucket n (some p))) [
    | inl (c, has) ↦ elim (Bool-cases (B.fits k v)) [
      | inl fits ↦ elim (Bool-cases (same_name n m)) [
        | inl same ↦ (B.store c k v, ground (arith, has, fits, same, same_name-eq n m))
        | inr other ↦ (b, ground (arith, has, fits, other))
      ]
      | inr big ↦ (b, ground (arith, has, big))
    ]
    | inr (inl (e, failed)) ↦ (b, ground (arith, failed))
    | inr (inr failed) ↦ (b, ground (arith, failed))
  ]

  put_value-unfit :
      (n : BucketName) (k v : Bytes) (d : Db B) (b : B.Bucket)
      → fetch_bucket n d ≡ ok b
      → B.fits k v ≡ false
      → update (put_value n k v) d ≡ (err foreign, d)
  unfolding update put_value put
  put_value-unfit n k v d b there big = rw (update, put_value, there, put, big) refl

  put_value-missing :
      (n : BucketName) (k v : Bytes) (d : Db B) (e : Error)
      → fetch_bucket n d ≡ err e
      → update (put_value n k v) d ≡ (err e, d)
  unfolding update put_value
  put_value-missing n k v d e failed = rw (update, put_value, failed) refl

  -- A stored record is fetched, and a failure to store leaves the database as it was.
  pub put_value_cases :
      {A : Type 0} (json : Json A) (n : BucketName) (id : Bytes) (a : A) (d : Db B)
      → (((update (put_value n id (json.marshal a)) d).0 ≡ ok tt)
          × (fetch_value json n id (update (put_value n id (json.marshal a)) d).1 ≡ ok a))
        ⊎ ((e : Error) × (update (put_value n id (json.marshal a)) d ≡ (err e, d)))
  put_value_cases json n id a d = elim (result_cases (fetch_bucket n d)) [
    | inl (b, there) ↦ elim (Bool-cases (B.fits id (json.marshal a))) [
      | inl fits ↦ inl (
        put_value-ok n id (json.marshal a) d (b, there) fits,
        fetch-put_value json n id a d (b, there) fits,
      )
      | inr big ↦ inr (foreign, put_value-unfit n id (json.marshal a) d b there big)
    ]
    | inr (inl (e, failed)) ↦ inr (e, put_value-missing n id (json.marshal a) d e failed)
    | inr (inr failed) ↦ absurd (fetch_bucket-no_panic n d failed)
  ]
