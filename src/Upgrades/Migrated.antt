-- ===== src/Upgrades/Migrated.antt =====
-- pool/upgrades.go, upgradeDB: a database of version 0, upgraded.
use eacrpool.Prelude.{◌≡◌, refl, true, Option, none, some, List, arith, if◌then◌else◌}
use eacrpool.Errors.{ok}
use eacrpool.Bytes.{Bytes, equal, equal_refl, put_uint32_le, uint32_le}
use eacrpool.Bolt.{Bolt, lookup}
use eacrpool.Json.{Json}
use eacrpool.Payment.{Payment}
use eacrpool.Db.{
  BucketName, PoolBkt, Db, payment_bkt, payment_archive_bkt, update, put, fetch_bucket, set_nested,
}
use eacrpool.Db.Records.{find, fetch_value}
use eacrpool.Db.Buckets.{version_k}
use eacrpool.Upgrades.{
  fetch_db_version, set_db_version, rewrite_bucket, rewrite_loop, check_version,
  transaction_id_upgrade, run_upgrades, upgrade_db, uint32_value,
}
use eacrpool.Upgrades.Rewritten.{Readable, reencoded, held, rewrite_loop-lem, fetched_again}

upgrade_db-current :
    {B : Bolt} (json : Json Payment) (walk : B.Bucket → List (Bytes × Bytes)) (d : Db B)
    → fetch_db_version d ≡ ok 1
    → upgrade_db json walk d ≡ (ok tt, d)
unfolding upgrade_db
upgrade_db-current json walk d at = ground (arith, at)

-- What a key of a bucket holds after the upgrade, by what it held.
unfoldable pub migrated : Json Payment → BucketName → Bytes → Option Bytes
unfolding reencoded
migrated json payment_bkt v = reencoded json v
migrated json payment_archive_bkt v = reencoded json v
migrated json _ v = some v

-- a value of the pool bucket itself
unfoldable pub pool_value : {B : Bolt} → Bytes → Db B → Option Bytes
pool_value k none = none
pool_value {B} k (some p) = lookup k (B.entries p.values)

module _ {B : Bolt} (json : Json Payment) (walk : B.Bucket → List (Bytes × Bytes)) (p : PoolBkt B)
    (pending archived : B.Bucket) where
  -- a database of version 0 whose payments can all be read, and take their new encoding
  pub record IsOld : Type 0 where
    pub version : fetch_db_version (some p) ≡ ok 0
    pub has_pending : p.nested payment_bkt ≡ some pending
    pub has_archived : p.nested payment_archive_bkt ≡ some archived
    pub reads_pending : Readable B json (B.entries pending)
    pub reads_archived : Readable B json (B.entries archived)
    -- the cursors give what was there, whatever is put meanwhile under the same keys
    pub walks_pending : walk pending ≡ B.entries pending
    pub walks_archived : walk archived ≡ B.entries archived
    pub takes_version : B.fits version_k (put_uint32_le 1) ≡ true

  -- the database after the upgrade, with these two buckets
  abbrev upgraded : B.Bucket → B.Bucket → Db B
  upgraded pending' archived' = some (record {
    values = B.store p.values version_k (put_uint32_le 1);
    nested =
        set_nested (set_nested p.nested payment_bkt (some pending')) payment_archive_bkt
          (some archived');
  })

  upgrade_db-upgraded :
      (pending' archived' : B.Bucket)
      → IsOld
      → rewrite_loop B json (B.entries pending) pending ≡ ok pending'
      → rewrite_loop B json (B.entries archived) archived ≡ ok archived'
      → upgrade_db json walk (some p) ≡ (ok tt, upgraded pending' archived')
  unfolding upgrade_db run_upgrades update transaction_id_upgrade check_version rewrite_bucket
      set_db_version fetch_bucket put
  upgrade_db-upgraded pending' archived' old done1 done2 = ground (
    arith, old.version, old.has_pending, old.has_archived, old.walks_pending, old.walks_archived,
    old.takes_version, done1, done2,
  )

  fetch_db_version-upgraded :
      (pending' archived' : B.Bucket) → fetch_db_version (upgraded pending' archived') ≡ ok 1
  unfolding fetch_db_version uint32_value uint32_le put_uint32_le
  fetch_db_version-upgraded pending' archived' =
      ground
        (arith, B.lookup-store p.values version_k (put_uint32_le 1) version_k, equal_refl version_k)

  fetch_value-upgraded :
      (pending' archived' : B.Bucket) (m : BucketName) (id : Bytes)
      → IsOld
      → ((j : Bytes) → lookup j (B.entries pending') ≡ held B json (B.entries pending) pending j)
      → ((j : Bytes) → lookup j (B.entries archived') ≡ held B json (B.entries archived) archived j)
      → fetch_value json m id (upgraded pending' archived') ≡ fetch_value json m id (some p)
  unfolding fetch_value fetch_bucket
  fetch_value-upgraded pending' archived' payment_bkt id old found1 found2 =
      rw (fetch_value, old.has_pending)
        (fetched_again B json pending pending' id old.reads_pending (found1 id))
  fetch_value-upgraded pending' archived' payment_archive_bkt id old found1 found2 =
      rw (fetch_value, old.has_archived)
        (fetched_again B json archived archived' id old.reads_archived (found2 id))
  fetch_value-upgraded pending' archived' _ id old found1 found2 = refl

  find-upgraded :
      (pending' archived' : B.Bucket) (m : BucketName) (id : Bytes)
      → IsOld
      → ((j : Bytes) → lookup j (B.entries pending') ≡ held B json (B.entries pending) pending j)
      → ((j : Bytes) → lookup j (B.entries archived') ≡ held B json (B.entries archived) archived j)
      → find m id (upgraded pending' archived')
        ≡ (elim (find m id (some p)) [ none ↦ none | some v ↦ migrated json m v ])
  unfolding migrated
  find-upgraded pending' archived' payment_bkt id old found1 found2 =
      ground (arith, old.has_pending, found1 id)
  find-upgraded pending' archived' payment_archive_bkt id old found1 found2 =
      ground (arith, old.has_archived, found2 id)
  find-upgraded pending' archived' _ id old found1 found2 = ground arith

  pool_value-upgraded :
      (pending' archived' : B.Bucket) (k : Bytes)
      → pool_value k (upgraded pending' archived')
        ≡ (if equal version_k k then some (put_uint32_le 1) else pool_value k (some p))
  unfolding pool_value
  pool_value-upgraded pending' archived' k = B.lookup-store p.values version_k (put_uint32_le 1) k

  -- A database of version 0 whose pending and archived payments can all be read, whose new encodings and
  -- version Bolt takes, and whose cursors give what was there, is upgraded to version 1. Every pending
  -- and archived payment is then stored in its new encoding under its key, no other key of a bucket
  -- changes, and of the pool's own values only the version does; every key holds a payment exactly
  -- where it held one, and the same payment. To upgrade it again changes nothing.
  pub upgrade_db_migrates :
      IsOld
      → let (r, d) = upgrade_db json walk (some p) in
        (r ≡ ok tt)
        × (fetch_db_version d ≡ ok 1)
        × ((m : BucketName) (id : Bytes)
            → find m id d
              ≡ (elim (find m id (some p)) [ none ↦ none | some v ↦ migrated json m v ]))
        × ((k : Bytes)
            → pool_value k d
              ≡ (if equal version_k k then some (put_uint32_le 1) else pool_value k (some p)))
        × ((m : BucketName) (id : Bytes) → fetch_value json m id d ≡ fetch_value json m id (some p))
        × (upgrade_db json walk d ≡ (ok tt, d))
  upgrade_db_migrates old =
      let (pending', done1, found1) =
        rewrite_loop-lem B json (B.entries pending) pending (B.entries-Ascending pending)
          old.reads_pending in
      let (archived', done2, found2) =
        rewrite_loop-lem B json (B.entries archived) archived (B.entries-Ascending archived)
          old.reads_archived in
      let d = upgraded pending' archived' in
      rw (upgrade_db-upgraded pending' archived' old done1 done2) (
        refl,
        fetch_db_version-upgraded pending' archived',
        λ m id. find-upgraded pending' archived' m id old found1 found2,
        λ k. pool_value-upgraded pending' archived' k,
        λ m id. fetch_value-upgraded pending' archived' m id old found1 found2,
        upgrade_db-current json walk d (fetch_db_version-upgraded pending' archived'),
      )
