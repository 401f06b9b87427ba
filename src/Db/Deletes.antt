-- ===== src/Db/Deletes.antt =====
-- pool/db.go, deleteEntry.
use eacrpool.Prelude.{
  ◌≡◌, ◌≢◌, refl, false, ◌&&◌, none, some, arith, Option-cases, ◌⊎◌, inl, inr, if◌then◌else◌,
}
use eacrpool.Errors.{ok, err, panic, make_error, bucket_not_found}
use eacrpool.Bytes.{Bytes, equal}
use eacrpool.Bolt.{Bolt}
use eacrpool.Json.{Json}
use eacrpool.Db.State.{
  BucketName, Db, same_name, same_name-eq, same_name_refl, update, fetch_bucket,
}
use eacrpool.Db.Buckets.{delete_entry}
use eacrpool.Db.Records.{find, HasBucket, decoded, fetch_value}

fetch_bucket-cases :
    {B : Bolt} (n : BucketName) (d : Db B)
    → HasBucket n d ⊎ (fetch_bucket n d ≡ err (make_error bucket_not_found))
unfolding fetch_bucket
fetch_bucket-cases n none = inr refl
fetch_bucket-cases n (some p) = elim (Option-cases (p.nested n)) [
  | inl gone ↦ inr (ground arith)
  | inr (b, there) ↦ inl (b, ground arith)
]

module _ {B : Bolt} (n : BucketName) (k : Bytes) where
  pub delete_entry-ok : (d : Db B) → HasBucket n d → (delete_entry n k d).0 ≡ ok tt
  unfolding delete_entry update fetch_bucket
  delete_entry-ok none (b, h) = ground arith
  delete_entry-ok (some p) (b, h) = ground arith

  pub delete_entry-HasBucket :
      (m : BucketName) (d : Db B) → HasBucket m d → HasBucket m (delete_entry n k d).1
  unfolding delete_entry update fetch_bucket
  delete_entry-HasBucket m none (b, h) = (b, ground arith)
  delete_entry-HasBucket m (some p) (b, h) =
      elim (fetch_bucket-cases m (delete_entry n k (some p)).1) [
        | inl there ↦ there
        | inr gone ↦ absurd (ground (arith, same_name-eq n m, same_name-eq m n))
      ]

  pub fetch_bucket-delete_entry :
      (m : BucketName) (d : Db B)
      → same_name n m ≡ false
      → fetch_bucket m (delete_entry n k d).1 ≡ fetch_bucket m d
  unfolding delete_entry update fetch_bucket
  fetch_bucket-delete_entry m none ne = ground arith
  fetch_bucket-delete_entry m (some p) ne = ground arith

  pub find-delete_entry :
      (m : BucketName) (j : Bytes) (d : Db B)
      → HasBucket n d
      → find m j (delete_entry n k d).1 ≡ (if same_name n m && equal k j then none else find m j d)
  unfolding delete_entry update fetch_bucket
  find-delete_entry m j none (b, h) = ground arith
  find-delete_entry m j (some p) (b, h) =
      ground (arith, B.lookup-delete b k j, same_name-eq n m, same_name_refl n)

module _ {A : Type 0} (json : Json A) {B : Bolt} where
  -- A fetched record's bucket is there.
  pub fetch_value-HasBucket :
      (n : BucketName) (id : Bytes) (d : Db B) {a : A}
      → fetch_value json n id d ≡ ok a
      → HasBucket n d
  unfolding fetch_value
  fetch_value-HasBucket n id d h = elim (fetch_bucket-cases n d) [
    | inl there ↦ there
    | inr gone ↦ absurd (ground arith)
  ]

  pub fetch_value-quiet : (n : BucketName) (id : Bytes) (d : Db B) → fetch_value json n id d ≢ panic
  unfolding fetch_value fetch_bucket decoded
  fetch_value-quiet n id d = ground arith
