-- ===== src/Upgrades.antt =====
-- pool/upgrades.go, and InitDB of pool/db.go: the versions of the database, and how it is opened.
pub mod Rewritten
pub mod Migrated
use eacrpool.Prelude.{
  ℕ, ◌==◌, leb, Bool, true, false, not, Option, none, some, List, [], ◌∷◌, drop, if◌then◌else◌,
}
use eacrpool.Errors.{
  Result, ok, err, panic, foreign, make_error, value_not_found, bucket_not_found, db_upgrade,
  db_open,
}
use eacrpool.Bytes.{Bytes, uint32_le, put_uint32_le}
use eacrpool.Bolt.{Bolt, lookup}
use eacrpool.Json.{Json}
use eacrpool.Payment.{Payment}
use eacrpool.Db.{
  BucketName, PoolBkt, Db, Tx, payment_bkt, payment_archive_bkt, update, put, fetch_bucket, write,
  write_values, ◌>>=◌, ◌>>◌,
}
use eacrpool.Db.Buckets.{version_k, solo_pool, db_version, create_buckets, purge}

-- `binary.LittleEndian.Uint32(v)` of a value, which panics on fewer than four bytes
unfoldable pub uint32_value : Bytes → Result ℕ
uint32_value v = elim (uint32_le v) [ none ↦ panic | some n ↦ ok n ]

-- The loop over the pairs that a cursor gives, each payment stored again as it is encoded now.
unfoldable pub rewrite_loop :
    (B : Bolt) → Json Payment → List (Bytes × Bytes) → B.Bucket → Result B.Bucket
unfolding put
rewrite_loop B json [] b = ok b
rewrite_loop B json ((k, v) ∷ rest) b = elim (json.unmarshal v) [
  | none ↦ err foreign
  | some payment ↦ elim (put B b k (json.marshal payment)) [
    | err e ↦ err e
    | panic ↦ panic
    | ok b' ↦ rewrite_loop B json rest b'
  ]
]

module _ {B : Bolt} where
  -- The test for nil looks at the bucket's name, so a missing pool bucket is a nil pointer.
  unfoldable pub fetch_db_version : Db B → Result ℕ
  unfolding uint32_value
  fetch_db_version none = panic
  fetch_db_version (some p) = elim (lookup version_k (B.entries p.values)) [
    | none ↦ err (make_error value_not_found)
    | some v ↦ uint32_value v
  ]

  unfoldable pub set_db_version : ℕ → Tx B (Unit {0})
  unfolding put
  set_db_version new_version none = panic
  set_db_version new_version (some p) =
      elim (put B p.values version_k (put_uint32_le new_version)) [
        | ok b ↦ write_values b (some p)
        | err e ↦ err e
        | panic ↦ panic
      ]

  -- Whether the mode that is stored is another one; none is stored before the first run.
  unfoldable pub mode_switched : Bool → Db B → Result Bool
  unfolding uint32_value
  mode_switched is_solo_pool none = ok false
  mode_switched is_solo_pool (some p) = elim (lookup solo_pool (B.entries p.values)) [
    | none ↦ ok false
    | some v ↦ elim (uint32_value v) [
      | err e ↦ err e
      | panic ↦ panic
      | ok mode ↦ ok (if mode == 1 then not is_solo_pool else is_solo_pool)
    ]
  ]

  -- The database is wiped where the mode was switched and the backup is written.
  unfoldable pub wipe_switched : Bool → Result (Unit {0}) → Db B → Result (Unit {0}) × Db B
  wipe_switched is_solo_pool backup d = elim (mode_switched is_solo_pool d) [
    | err e ↦ (err e, d)
    | panic ↦ (panic, d)
    | ok false ↦ (ok tt, d)
    | ok true ↦ elim backup [ err e ↦ (err e, d) | panic ↦ (panic, d) | ok _ ↦ purge d ]
  ]

  -- `walk` is what a cursor gives from First to the end while the loop puts the pairs back: bbolt says that
  -- a bucket that changes may invalidate its cursor, which then gives other pairs.
  module _ (json : Json Payment) (walk : B.Bucket → List (Bytes × Bytes)) where
    -- the payments of one bucket
    unfoldable pub rewrite_bucket : BucketName → Tx B (Unit {0})
    unfolding fetch_bucket
    rewrite_bucket n d = elim (fetch_bucket n d) [
      | err e ↦ err e
      | panic ↦ panic
      | ok b ↦ elim (rewrite_loop B json (walk b) b) [
        | err e ↦ err e
        | panic ↦ panic
        | ok b' ↦ write n b' d
      ]
    ]

    unfoldable pub check_version : ℕ → Tx B (Unit {0})
    check_version old_version d = elim (fetch_db_version d) [
      | err e ↦ err e
      | panic ↦ panic
      | ok version ↦ if version == old_version then ok (tt, d) else err (make_error db_upgrade)
    ]

    unfoldable pub transaction_id_upgrade : Tx B (Unit {0})
    transaction_id_upgrade = do
      check_version 0
      rewrite_bucket payment_bkt
      rewrite_bucket payment_archive_bkt
      set_db_version 1

    -- each upgrade by the version it starts from
    abbrev pub upgrades : List (Tx B (Unit {0}))
    unfolding transaction_id_upgrade
    upgrades = transaction_id_upgrade ∷ []

    unfoldable pub run_upgrades : List (Tx B (Unit {0})) → Tx B (Unit {0})
    run_upgrades [] d = ok (tt, d)
    run_upgrades (upgrade ∷ rest) d = elim (upgrade d) [
      | err e ↦ err e
      | panic ↦ panic
      | ok (_, d') ↦ run_upgrades rest d'
    ]

    unfoldable pub upgrade_db : Db B → Result (Unit {0}) × Db B
    unfolding run_upgrades update transaction_id_upgrade
    upgrade_db d = elim (fetch_db_version d) [
      | err e ↦ (err e, d)
      | panic ↦ (panic, d)
      | ok version ↦
          if leb db_version version
          then (ok tt, d)
          else update (run_upgrades (drop version upgrades)) d
    ]

    -- InitDB on what bolt.Open gives; `backup` is the outcome of the copy to a file.
    unfoldable pub init_db :
        Bool → Result (Unit {0}) → Result (Db B) → Result (Unit {0}) × Option (Db B)
    init_db is_solo_pool backup opened = elim opened [
      | err e ↦ (err (make_error db_open), none)
      | panic ↦ (panic, none)
      | ok d ↦
          let (r, d1) = create_buckets d in
          elim r [
            | err e ↦ (err e, some d1)
            | panic ↦ (panic, some d1)
            | ok _ ↦
                let (r', d2) = upgrade_db d1 in
                elim r' [
                  | err e ↦ (err e, some d2)
                  | panic ↦ (panic, some d2)
                  | ok _ ↦ let (r'', d3) = wipe_switched is_solo_pool backup d2 in (r'', some d3)
                ]
          ]
    ]
