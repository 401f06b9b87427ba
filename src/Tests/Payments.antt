-- ===== src/Tests/Payments.antt =====
-- Payments of two accounts, of which one is paid, and accounts to pay them to.
use eacrpool.Prelude.{◌+◌, ◌≡◌, refl, none, some, [], ◌∷◌, arith, filter, map, if◌then◌else◌}
use eacrpool.Errors.{ok}
use eacrpool.Bytes.{Bytes, hex_encode, hex_digit, put_uint32_be, put_uint64_be, equal, less}
use eacrpool.Bolt.{lookup}
use eacrpool.Int64.{add64}
use eacrpool.Ids.{nano_to_big_endian_bytes}
use eacrpool.Account.{Account, fetch_account}
use eacrpool.Db.{BucketName, Db, payment_bkt, payment_archive_bkt, fetch_bucket, same_name}
use eacrpool.Db.Buckets.{pool_fees_k}
use eacrpool.Db.Records.{find, fetch_value, decoded}
use eacrpool.Db.Prune.{member}
use eacrpool.Payment.{Payment, new_payment, generate_payment_id, payment_id}
use eacrpool.Payment.Bundle.{PaymentBundle, generate_payment_bundles, total_from, total}
use eacrpool.Payment.Bundle.Grouping.{OnePerAccount, payments_of, generate_payment_bundles_group}
use eacrpool.Payment.Bundle.Sums.{sum_totals}
use eacrpool.Payment.Query.{fetch_payments_for_account}
use eacrpool.Payment.Query.Latest.{fetch_payments_for_account_latest}
use eacrpool.Payment.Details.{destination, generate_payment_details}
use eacrpool.Payment.Details.Conservation.{
  sum_outputs, generate_payment_details_conserves, generate_payment_details_overwrites,
}
use eacrpool.Payment.Archive.{archive_payments}
use eacrpool.Payment.Archive.Moves.{archived, last_with, archive_payments_moves}
use eacrpool.Tests.Store.{Pairs, store, insert}
use eacrpool.Tests.Codecs.{payment_json, account_json, split, join, close}
use eacrpool.Tests.Fixtures.{pool, filled, all_payments, only_accounts}

abbrev x_id : Bytes
x_id = 120 ∷ []

abbrev y_id : Bytes
y_id = 121 ∷ []

abbrev first : Payment
first = new_payment 1 x_id 30 5 10

abbrev second : Payment
second = new_payment 2 y_id 12 5 20

abbrev third : Payment
third = record (new_payment 3 x_id 8 4 9) { paid_on_height = 11 }

generate_payment_bundles_group_example :
    OnePerAccount (generate_payment_bundles (first ∷ second ∷ third ∷ []))
    × ((a : Bytes)
        → payments_of a (generate_payment_bundles (first ∷ second ∷ third ∷ []))
          ≡ filter (λ p. equal p.account a) (first ∷ second ∷ third ∷ []))
generate_payment_bundles_group_example =
    generate_payment_bundles_group (first ∷ second ∷ third ∷ [])

abbrev pending : Pairs
pending =
    (payment_id first, payment_json.marshal first)
    ∷ (payment_id second, payment_json.marshal second)
    ∷ []

abbrev archive : Pairs
archive = (payment_id third, payment_json.marshal third) ∷ []

abbrev payments_db : Db store
payments_db = some (pool (all_payments pending archive))

fetch_payments_for_account_latest_example :
    fetch_payments_for_account payment_json x_id 2 payments_db ≡ ok (first ∷ third ∷ [])
unfolding new_payment generate_payment_id nano_to_big_endian_bytes hex_encode hex_digit
    put_uint32_be put_uint64_be equal less filled insert fetch_bucket split join close
fetch_payments_for_account_latest_example =
    fetch_payments_for_account_latest payment_json x_id 2 payments_db
      ((payment_id second, second) ∷ (payment_id first, first) ∷ [])
      ((payment_id third, third) ∷ []) refl refl
      (refl, omega arith, refl, (refl, omega arith, refl, tt)) (refl, omega arith, refl, tt)

abbrev x_account : Account
x_account = record { uuid = x_id; address = 65 ∷ []; created_on = 0 }

abbrev y_account : Account
y_account = record { uuid = y_id; address = 66 ∷ []; created_on = 0 }

abbrev accounts_db : Db store
accounts_db = some (
    pool (
      only_accounts
        ((x_id, account_json.marshal x_account) ∷ (y_id, account_json.marshal y_account) ∷ [])))

abbrev x_bundle : PaymentBundle
x_bundle = record { account = x_id; payments = first ∷ third ∷ [] }

abbrev y_bundle : PaymentBundle
y_bundle = record { account = y_id; payments = second ∷ [] }

abbrev fee_bundle : PaymentBundle
fee_bundle = record { account = pool_fees_k; payments = new_payment 4 pool_fees_k 7 5 10 ∷ [] }

generate_payment_details_conserves_example :
    (generate_payment_details account_json accounts_db (67 ∷ []) (x_bundle ∷ y_bundle ∷ [])
      ≡ ok ((65 ∷ [], 38) ∷ (66 ∷ [], 12) ∷ [], 50))
    × (sum_outputs 0 ((65 ∷ [], 38) ∷ (66 ∷ [], 12) ∷ []) ≡ 50)
unfolding new_payment destination fetch_account fetch_value decoded lookup equal less filled insert
    fetch_bucket split join close total total_from add64 sum_totals
generate_payment_details_conserves_example =
    generate_payment_details_conserves account_json accounts_db (67 ∷ []) (x_bundle ∷ y_bundle ∷ [])
      ((65 ∷ []) ∷ (66 ∷ []) ∷ []) (refl, (refl, tt)) ((refl, tt), (tt, tt))

generate_payment_details_overwrites_example :
    generate_payment_details account_json accounts_db (65 ∷ []) (fee_bundle ∷ x_bundle ∷ [])
    ≡ ok ((65 ∷ [], 38) ∷ [], 45)
unfolding new_payment destination fetch_account fetch_value decoded lookup equal less filled insert
    fetch_bucket split join close total total_from add64 sum_totals
generate_payment_details_overwrites_example =
    generate_payment_details_overwrites account_json accounts_db (65 ∷ []) fee_bundle x_bundle
      (65 ∷ []) refl refl

archive_payments_moves_example :
    let (r, d) = archive_payments payment_json (λ i. 7 + i) y_bundle payments_db in
    (r ≡ ok tt)
    × ((m : BucketName) (j : Bytes)
        → find m j d ≡ (
            if same_name payment_bkt m
            then (if member j (map payment_id (second ∷ [])) then none else find m j payments_db)
            else if same_name payment_archive_bkt m
            then last_with payment_json j
                (archived (λ i. 7 + i) 0 (second ∷ []))
                (find m j payments_db)
            else find m j payments_db))
unfolding new_payment generate_payment_id nano_to_big_endian_bytes hex_encode hex_digit
    put_uint32_be put_uint64_be filled fetch_bucket
archive_payments_moves_example =
    archive_payments_moves payment_json (λ i. 7 + i) y_bundle payments_db refl refl (refl, tt)
