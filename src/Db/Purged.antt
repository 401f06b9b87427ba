-- ===== src/Db/Purged.antt =====
-- pool/db.go, purge: the buckets and the pool's values.
use eacrpool.Prelude.{◌≡◌, refl, none, some, List, [], ◌∷◌, arith, if◌then◌else◌}
use eacrpool.Errors.{ok}
use eacrpool.Bytes.{Bytes}
use eacrpool.Bolt.{Bolt, lookup}
use eacrpool.Db.State.{
  BucketName, PoolBkt, account_bkt, share_bkt, job_bkt, work_bkt, payment_bkt, payment_archive_bkt,
  update, fetch_bucket, pool_bucket, delete_all, set_nested,
}
use eacrpool.Db.Buckets.{
  tx_fee_reserve, last_payment_height, last_payment_paid_on, last_payment_created_on, solo_pool,
  csrf_secret, create_nested_bucket, create_nested_buckets, create_buckets_tx, create_pool_bucket,
  create_buckets, delete_bucket, delete_value, purge_tx, purge,
}
use eacrpool.Db.Records.{HasBucket}
use eacrpool.Db.Prune.{member, lookup-delete_all}

-- the values that purge deletes
abbrev pub purged_keys : List Bytes
purged_keys =
    tx_fee_reserve ∷ last_payment_height ∷ last_payment_paid_on ∷ last_payment_created_on
    ∷ solo_pool ∷ csrf_secret ∷ []

module _ {B : Bolt} where
  abbrev without : BucketName → PoolBkt B → PoolBkt B
  without n p = record p { nested = set_nested p.nested n none }

  -- what the first transaction leaves
  abbrev wiped : PoolBkt B → PoolBkt B
  wiped p =
      record (without payment_archive_bkt (
        without payment_bkt
          (without job_bkt (without work_bkt (without share_bkt (without account_bkt p)))))) {
            values = delete_all B p.values purged_keys;
          }

  nested_of :
      (n : BucketName) (p : PoolBkt B)
      → HasBucket n (some p)
      → (b : B.Bucket) × (p.nested n ≡ some b)
  unfolding fetch_bucket
  nested_of n p (b, found) = (b, ground arith)

module _ {B : Bolt} (p : PoolBkt B) where
  purge_tx-wiped :
      ((n : BucketName) → HasBucket n (some p)) → update purge_tx (some p) ≡ (ok tt, some (wiped p))
  unfolding purge_tx update pool_bucket delete_bucket delete_value delete_all
  purge_tx-wiped there = ground (
    arith,
    (nested_of account_bkt p (there account_bkt)).1,
    (nested_of share_bkt p (there share_bkt)).1,
    (nested_of work_bkt p (there work_bkt)).1,
    (nested_of job_bkt p (there job_bkt)).1,
    (nested_of payment_bkt p (there payment_bkt)).1,
    (nested_of payment_archive_bkt p (there payment_archive_bkt)).1,
  )

  create_buckets-wiped :
      create_buckets (some (wiped p)) ≡ (ok tt, some (create_nested_buckets (wiped p)))
  unfolding create_buckets create_buckets_tx create_pool_bucket update
  create_buckets-wiped = refl

  purge-wiped :
      ((n : BucketName) → HasBucket n (some p))
      → purge (some p) ≡ (ok tt, some (create_nested_buckets (wiped p)))
  unfolding purge
  purge-wiped there = ground (arith, purge_tx-wiped there, create_buckets-wiped)

  refilled : (n : BucketName) → fetch_bucket n (some (create_nested_buckets (wiped p))) ≡ ok B.empty
  unfolding fetch_bucket create_nested_bucket
  refilled account_bkt = refl
  refilled share_bkt = refl
  refilled work_bkt = refl
  refilled job_bkt = refl
  refilled payment_bkt = refl
  refilled payment_archive_bkt = refl

  values_left :
      (k : Bytes)
      → lookup k (B.entries (create_nested_buckets (wiped p)).values)
        ≡ (if member k purged_keys then none else lookup k (B.entries p.values))
  unfolding create_nested_bucket
  values_left k = lookup-delete_all B p.values purged_keys k

  -- Where the pool bucket and all that it nests are there, purge succeeds: every nested bucket is there
  -- and empty, and of the values the fee reserve, the data of the last payment, the pool's mode and the
  -- CSRF secret are gone, and only these.
  pub purge_exact :
      ((n : BucketName) → HasBucket n (some p))
      → let (r, d) = purge (some p) in
        (r ≡ ok tt)
        × ((n : BucketName) → fetch_bucket n d ≡ ok B.empty)
        × ((q : PoolBkt B) × (d ≡ some q)
            × ((k : Bytes)
                → lookup k (B.entries q.values)
                  ≡ (if member k purged_keys then none else lookup k (B.entries p.values))))
  purge_exact there =
      rw (purge-wiped there) (refl, refilled, (create_nested_buckets (wiped p), refl, values_left))
