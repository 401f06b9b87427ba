-- ===== src/Tests/Migrations.antt =====
-- A database of version 0 with a pending and an archived payment.
use eacrpool.Prelude.{◌≡◌, refl, Option, none, some, List, [], ◌∷◌, if◌then◌else◌}
use eacrpool.Errors.{ok}
use eacrpool.Bytes.{Bytes, equal, less, put_uint32_le, uint32_le}
use eacrpool.Bolt.{lookup}
use eacrpool.Json.{Json}
use eacrpool.Payment.{Payment, new_payment}
use eacrpool.Db.{BucketName, PoolBkt}
use eacrpool.Db.Buckets.{version_k}
use eacrpool.Db.Records.{find, fetch_value}
use eacrpool.Upgrades.{fetch_db_version, upgrade_db, uint32_value}
use eacrpool.Upgrades.Migrated.{IsOld, migrated, pool_value, upgrade_db_migrates}
use eacrpool.Tests.Store.{Pairs, store, insert}
use eacrpool.Tests.Codecs.{json_of, payment_of, payment_fields, split, join, close}
use eacrpool.Tests.Fixtures.{filled, all_payments}

-- the codec of payments, which also reads the fields without the last, the id of the transaction
abbrev legacy_of : List Bytes → Option Payment
legacy_of (a ∷ n ∷ []) = payment_of (a ∷ n ∷ [] ∷ [])
legacy_of (a ∷ n ∷ t ∷ rest) = payment_of (a ∷ n ∷ t ∷ rest)
legacy_of _ = none

abbrev legacy_json : Json Payment
legacy_json = json_of payment_fields legacy_of (λ p. refl)

abbrev due : Payment
due = new_payment 1 (109 ∷ []) 500 9 25

abbrev paid : Payment
paid = record (new_payment 2 (110 ∷ []) 700 3 19) { paid_on_height = 20 }

abbrev pending : Pairs
pending = (1 ∷ [], join ((109 ∷ []) ∷ (25 ∷ 9 ∷ 500 ∷ 1 ∷ 0 ∷ []) ∷ [])) ∷ []

abbrev archived : Pairs
archived = (2 ∷ [], legacy_json.marshal paid) ∷ []

abbrev old : PoolBkt store
old = record {
  values = filled ((version_k, put_uint32_le 0) ∷ []);
  nested = λ n. some (filled (all_payments pending archived n));
}

old-IsOld : IsOld legacy_json store.entries old (filled pending) (filled archived)
unfolding fetch_db_version uint32_value uint32_le put_uint32_le lookup equal less filled insert
    split join close new_payment
old-IsOld = record {
  version = refl;
  has_pending = refl;
  has_archived = refl;
  reads_pending = ((due, refl, refl), tt);
  reads_archived = ((paid, refl, refl), tt);
  walks_pending = refl;
  walks_archived = refl;
  takes_version = refl;
}

upgrade_db_migrates_example :
    let (r, d) = upgrade_db legacy_json store.entries (some old) in
    (r ≡ ok tt)
    × (fetch_db_version d ≡ ok 1)
    × ((m : BucketName) (id : Bytes)
        → find m id d
          ≡ (elim (find m id (some old)) [ none ↦ none | some v ↦ migrated legacy_json m v ]))
    × ((k : Bytes)
        → pool_value k d
          ≡ (if equal version_k k then some (put_uint32_le 1) else pool_value k (some old)))
    × ((m : BucketName) (id : Bytes)
        → fetch_value legacy_json m id d ≡ fetch_value legacy_json m id (some old))
    × (upgrade_db legacy_json store.entries d ≡ (ok tt, d))
upgrade_db_migrates_example =
    upgrade_db_migrates legacy_json store.entries old (filled pending) (filled archived) old-IsOld
