-- ===== src/Db/State.antt =====
-- The state of the database and its transactions. `poolBkt` holds values under the keys of db.go and
-- the nested buckets; `none` is a bucket that is not there.
use eacrpool.Prelude.{
  ℕ, ◌≡◌, refl, arith, Bool, true, Option, none, some, List, [], ◌∷◌, ◌==◌, if◌then◌else◌,
}
use eacrpool.Errors.{Error, Result, ok, err, panic, foreign, make_error, bucket_not_found}
use eacrpool.Bolt.{Bolt}
use eacrpool.Bytes.{Bytes}

-- the names of the nested buckets
pub data BucketName : Type 0 where
  account_bkt share_bkt job_bkt work_bkt payment_bkt payment_archive_bkt : BucketName

abbrev tag : BucketName → ℕ
tag account_bkt = 0
tag share_bkt = 1
tag job_bkt = 2
tag work_bkt = 3
tag payment_bkt = 4
tag payment_archive_bkt = 5

abbrev pub same_name : BucketName → BucketName → Bool
same_name m n = tag m == tag n

pub same_name-eq : (m n : BucketName) → same_name m n ≡ true → m ≡ n
same_name-eq account_bkt n h = ground arith
same_name-eq share_bkt n h = ground arith
same_name-eq job_bkt n h = ground arith
same_name-eq work_bkt n h = ground arith
same_name-eq payment_bkt n h = ground arith
same_name-eq payment_archive_bkt n h = ground arith

pub same_name_refl : (n : BucketName) → same_name n n ≡ true
same_name_refl account_bkt = refl
same_name_refl share_bkt = refl
same_name_refl job_bkt = refl
same_name_refl work_bkt = refl
same_name_refl payment_bkt = refl
same_name_refl payment_archive_bkt = refl

pub record PoolBkt (B : Bolt) : Type 0 where
  pub values : B.Bucket
  pub nested : BucketName → Option B.Bucket

abbrev pub Db : Bolt → Type 0
Db B = Option (PoolBkt B)

-- The function that Update runs: a value with what it wrote, an error or a panic.
abbrev pub Tx : Bolt → Type 0 → Type 0
Tx B A = Db B → Result (A × Db B)

-- The nested bucket of that name is now `v`.
abbrev pub set_nested : {A : Type 0} → (BucketName → A) → BucketName → A → BucketName → A
set_nested f n v m = if same_name n m then v else f m

module _ (B : Bolt) where
  -- Put into a bucket; its error is Bolt's.
  unfoldable pub put : B.Bucket → Bytes → Bytes → Result B.Bucket
  put b k v = if B.fits k v then ok (B.store b k v) else err foreign

  -- `for _, k := range toDelete { bkt.Delete(k) }`
  unfoldable pub delete_all : B.Bucket → List Bytes → B.Bucket
  delete_all b [] = b
  delete_all b (k ∷ ks) = delete_all (B.delete b k) ks

module _ {B : Bolt} where
  module _ {A : Type 0} where
    abbrev pub pure : A → Tx B A
    pure a d = ok (a, d)

    abbrev pub raise : Error → Tx B A
    raise e d = err e

    -- Update commits what a function wrote if it returns nil, and else rolls it back.
    unfoldable pub update : Tx B A → Db B → Result A × Db B
    update t d = elim (t d) [ ok (a, d') ↦ (ok a, d') | err e ↦ (err e, d) | panic ↦ (panic, d) ]

    -- A function that View runs only reads.
    abbrev pub view : (Db B → Result A) → Db B → Result A
    view f d = f d

  module _ {A C : Type 0} where
    infixl 5 ◌>>=◌ ◌>>◌
    abbrev pub ◌>>=◌ : Tx B A → (A → Tx B C) → Tx B C
    ◌>>=◌ m f d = elim (m d) [ ok (a, d') ↦ f a d' | err e ↦ err e | panic ↦ panic ]

    abbrev pub ◌>>◌ : Tx B A → Tx B C → Tx B C
    m >> k = m >>= λ _. k

  -- `tx.Bucket(poolBkt)` and the test for nil
  unfoldable pub pool_bucket : Db B → Result (PoolBkt B)
  pool_bucket none = err (make_error bucket_not_found)
  pool_bucket (some p) = ok p

  -- The pool bucket and the nested one, each with its test for nil: the body that fetchJobBucket,
  -- fetchWorkBucket and the others of this form share.
  unfoldable pub fetch_bucket : BucketName → Db B → Result B.Bucket
  fetch_bucket n none = err (make_error bucket_not_found)
  fetch_bucket n (some p) = elim (p.nested n) [
    | none ↦ err (make_error bucket_not_found)
    | some b ↦ ok b
  ]

  -- a read inside a transaction
  abbrev pub read : {A : Type 0} → (Db B → Result A) → Tx B A
  read f d = elim (f d) [ ok a ↦ ok (a, d) | err e ↦ err e | panic ↦ panic ]

  -- The nested bucket of that name now has these contents.
  abbrev pub write : BucketName → B.Bucket → Tx B (Unit {0})
  write n b none = ok (tt, none)
  write n b (some p) = ok (tt, some (record p { nested = set_nested p.nested n (some b) }))

  abbrev pub write_values : B.Bucket → Tx B (Unit {0})
  write_values b none = ok (tt, none)
  write_values b (some p) = ok (tt, some (record p { values = b }))
