-- ===== src/Db/Buckets.antt =====
-- pool/db.go: createBuckets, purge, deleteEntry and emptyBucket, and pool/upgrades.go's version key.
use eacrpool.Prelude.{ℕ, none, some, map}
use eacrpool.Errors.{Result, ok, err, panic, foreign}
use eacrpool.Bytes.{Bytes, put_uint32_le}
use eacrpool.Text.{codes}
use eacrpool.Bolt.{Bolt}
use eacrpool.Db.State.{
  BucketName, account_bkt, share_bkt, job_bkt, work_bkt, payment_bkt, payment_archive_bkt, PoolBkt,
  Db, Tx, update, set_nested, pool_bucket, read, write, put, delete_all, ◌>>=◌, ◌>>◌,
}

-- the keys of the pool bucket's own values
abbrev pub version_k : Bytes
version_k = codes "version"

abbrev pub last_payment_created_on : Bytes
last_payment_created_on = codes "lastpaymentcreatedon"

abbrev pub last_payment_paid_on : Bytes
last_payment_paid_on = codes "lastpaymentpaidon"

abbrev pub last_payment_height : Bytes
last_payment_height = codes "lastpaymentheight"

abbrev pub tx_fee_reserve : Bytes
tx_fee_reserve = codes "txfeereserve"

abbrev pub solo_pool : Bytes
solo_pool = codes "solopool"

abbrev pub csrf_secret : Bytes
csrf_secret = codes "csrfsecret"

abbrev pub pool_fees_k : Bytes
pool_fees_k = codes "fees"

abbrev pub db_version : ℕ
db_version = 1

module _ {B : Bolt} where
  -- CreateBucketIfNotExists under the pool bucket
  unfoldable pub create_nested_bucket : BucketName → PoolBkt B → PoolBkt B
  create_nested_bucket n p = elim (p.nested n) [
    | none ↦ record p { nested = set_nested p.nested n (some B.empty) }
    | some b ↦ p
  ]

  -- The pool bucket, created with its version where it is not there.
  unfoldable pub create_pool_bucket : Db B → Result (PoolBkt B)
  unfolding put
  create_pool_bucket (some p) = ok p
  create_pool_bucket none = elim (put B B.empty version_k (put_uint32_le db_version)) [
    | ok b ↦ ok (record { values = b; nested = λ n. none })
    | err e ↦ err e
    | panic ↦ panic
  ]

  abbrev pub create_nested_buckets : PoolBkt B → PoolBkt B
  create_nested_buckets p = create_nested_bucket payment_archive_bkt (
      create_nested_bucket payment_bkt (
        create_nested_bucket job_bkt (
          create_nested_bucket work_bkt
            (create_nested_bucket share_bkt (create_nested_bucket account_bkt p)))))

  unfoldable pub create_buckets_tx : Tx B (Unit {0})
  unfolding create_pool_bucket create_nested_bucket
  create_buckets_tx d = elim (create_pool_bucket d) [
    | ok p ↦ ok (tt, some (create_nested_buckets p))
    | err e ↦ err e
    | panic ↦ panic
  ]

  unfoldable pub create_buckets : Db B → Result (Unit {0}) × Db B
  unfolding create_buckets_tx update
  create_buckets = update create_buckets_tx

  -- DeleteBucket, with Bolt's error where there is none of that name
  unfoldable pub delete_bucket : BucketName → Tx B (Unit {0})
  delete_bucket n none = panic
  delete_bucket n (some p) = elim (p.nested n) [
    | none ↦ err foreign
    | some b ↦ ok (tt, some (record p { nested = set_nested p.nested n none }))
  ]

  -- Delete of a key of the pool bucket itself
  unfoldable pub delete_value : Bytes → Tx B (Unit {0})
  delete_value k none = panic
  delete_value k (some p) = ok (tt, some (record p { values = B.delete p.values k }))

  unfoldable pub purge_tx : Tx B (Unit {0})
  unfolding pool_bucket delete_bucket delete_value
  purge_tx = do
    read pool_bucket
    delete_bucket account_bkt
    delete_bucket share_bkt
    delete_bucket work_bkt
    delete_bucket job_bkt
    delete_bucket payment_bkt
    delete_bucket payment_archive_bkt
    delete_value tx_fee_reserve
    delete_value last_payment_height
    delete_value last_payment_paid_on
    delete_value last_payment_created_on
    delete_value solo_pool
    delete_value csrf_secret

  -- `purge`: where the first transaction fails, the second is not run.
  unfoldable pub purge : Db B → Result (Unit {0}) × Db B
  unfolding purge_tx create_buckets update
  purge d =
      let (r, d') = update purge_tx d in
      elim r [ ok _ ↦ create_buckets d' | err e ↦ (err e, d') | panic ↦ (panic, d') ]

  -- A nested bucket that is used without the test for nil: a nil pointer panics.
  unfoldable pub unchecked_bucket : BucketName → Db B → Result B.Bucket
  unfolding pool_bucket
  unchecked_bucket n d = elim (pool_bucket d) [
    | ok p ↦ elim (p.nested n) [ none ↦ panic | some b ↦ ok b ]
    | err e ↦ err e
    | panic ↦ panic
  ]

  unfoldable pub delete_entry_tx : BucketName → Bytes → Tx B (Unit {0})
  unfolding unchecked_bucket
  delete_entry_tx n k = do b ← read (unchecked_bucket n); write n (B.delete b k)

  unfoldable pub delete_entry : BucketName → Bytes → Db B → Result (Unit {0}) × Db B
  unfolding delete_entry_tx update
  delete_entry n k = update (delete_entry_tx n k)

  unfoldable pub empty_bucket_tx : BucketName → Tx B (Unit {0})
  unfolding unchecked_bucket delete_all
  empty_bucket_tx n = do
    b ← read (unchecked_bucket n)
    write n (delete_all B b (map (λ e. e.0) (B.entries b)))

  unfoldable pub empty_bucket : BucketName → Db B → Result (Unit {0}) × Db B
  unfolding empty_bucket_tx update
  empty_bucket n = update (empty_bucket_tx n)
