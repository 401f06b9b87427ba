-- ===== src/Tests/Payouts.antt =====
-- A payout of two bundles over the small store, with a wallet that takes the transaction.
use eacrpool.Prelude.{ℕ, ◌*◌, ◌/◌, ◌≡◌, refl, true, false, none, some, [], ◌∷◌, if◌then◌else◌}
use eacrpool.Errors.{ok}
use eacrpool.Bytes.{
  Bytes, hex_encode, hex_digit, put_uint32_be, put_uint32_le, put_uint64_be, equal, less,
}
use eacrpool.Bolt.{lookup}
use eacrpool.Int64.{add64, less64}
use eacrpool.Ids.{nano_to_big_endian_bytes}
use eacrpool.Account.{Account, fetch_account}
use eacrpool.Share.{Floats}
use eacrpool.Db.{
  BucketName, payment_bkt, account_bkt, fetch_bucket, pool_bucket, update, put, delete_all,
}
use eacrpool.Db.Prune.{member}
use eacrpool.Db.Records.{find, fetch_value, decoded}
use eacrpool.Payment.{Payment, new_payment, generate_payment_id, payment_id}
use eacrpool.Payment.Query.{filter_loop, filter_payments, fetch_mature_pending_payments}
use eacrpool.Payment.Bundle.{
  PaymentBundle, add_payment, bundle_loop, generate_payment_bundles, total_from, total,
  new_payment_bundle, update_as_paid,
}
use eacrpool.Payment.Details.{destination, details_loop, set_output, generate_payment_details}
use eacrpool.Payment.Archive.{archive_loop, archive_payments_tx, archive_payments}
use eacrpool.PaymentMgr.{
  PaymentMgrConfig, is_payment_requested, put_pool_value, persist_tx_fee_reserve,
  persist_last_payment_height, persist_last_payment_paid_on,
}
use eacrpool.PaymentMgr.Schemes.{State}
use eacrpool.PaymentMgr.Eligible.{bundle_at, eligible_loop, fetch_eligible_payment_bundles}
use eacrpool.PaymentMgr.Dividends.{
  Outside, address_at, pick_address, all_addresses, apply_reserve, is_waiting, archive_bundles,
  persist_payment, pay_bundles, pay_dividends,
}
use eacrpool.PaymentMgr.Dividends.Paid.{ids_of, pay_dividends_pays}
use eacrpool.Tests.Store.{Pairs, store, insert, remove}
use eacrpool.Tests.Codecs.{payment_json, account_json, split, join, close}
use eacrpool.Tests.Fixtures.{pool, filled}

abbrev first : Payment
first = new_payment 1 (120 ∷ []) 30 5 10

abbrev second : Payment
second = new_payment 2 (121 ∷ []) 90 5 10

abbrev account : Bytes → Bytes → Account
account id address = record { uuid = id; address = address; created_on = 0 }

abbrev pairs : BucketName → Pairs
pairs payment_bkt =
    (payment_id first, payment_json.marshal first)
    ∷ (payment_id second, payment_json.marshal second)
    ∷ []
pairs account_bkt =
    (120 ∷ [], account_json.marshal (account (120 ∷ []) (65 ∷ [])))
    ∷ (121 ∷ [], account_json.marshal (account (121 ∷ []) (66 ∷ [])))
    ∷ []
pairs _ = []

-- whole percentages in place of floating point
abbrev floats : Floats
floats = record { Float = ℕ; float64 = λ r. r.num * 100 / r.den; mul_f64 = λ a f. a * f / 100 }

abbrev cfg : PaymentMgrConfig floats
cfg = record {
  coinbase_maturity = 16;
  pool_fee = 1;
  last_n_period = 60;
  payment_method = [];
  min_payment = 20;
  pool_fee_addrs = (67 ∷ []) ∷ [];
  max_tx_fee_reserve = 100;
}

abbrev outside : Outside
outside = record {
  net = record { is_address = λ a. true; blake256 = λ a. a };
  is_dust_amount = λ n. false;
  random = 3;
  publish_transaction = λ outputs amount. ok (84 ∷ []);
  clock = λ i j. 7;
}

abbrev due : State store
due = record {
  mgr = record { height = 20; paid_on = 7; created_on = 9; fee_reserve = 5; payment_reqs = [] };
  db = some (pool pairs);
}

abbrev x_bundle : PaymentBundle
x_bundle = record { account = 120 ∷ []; payments = first ∷ [] }

abbrev y_bundle : PaymentBundle
y_bundle = record { account = 121 ∷ []; payments = second ∷ [] }

pay_dividends_pays_example :
    let s = (pay_dividends cfg payment_json account_json outside 40 due).1 in
    (s.mgr.height ≡ 40)
    × ((j : Bytes)
        → find payment_bkt j s.db ≡ (
            if member j (ids_of (x_bundle ∷ y_bundle ∷ []))
            then none
            else find payment_bkt j due.db))
unfolding new_payment generate_payment_id nano_to_big_endian_bytes hex_encode hex_digit
    put_uint32_be put_uint32_le put_uint64_be equal less filled insert remove fetch_bucket
    pool_bucket split join close lookup add_payment bundle_loop generate_payment_bundles total_from
    total new_payment_bundle add64 less64 is_payment_requested filter_loop filter_payments
    fetch_mature_pending_payments bundle_at eligible_loop fetch_eligible_payment_bundles destination
    details_loop set_output generate_payment_details fetch_account fetch_value decoded update put
    delete_all archive_loop archive_payments_tx archive_payments update_as_paid archive_bundles
    address_at pick_address all_addresses apply_reserve is_waiting put_pool_value
    persist_tx_fee_reserve persist_last_payment_height persist_last_payment_paid_on persist_payment
    pay_bundles pay_dividends
pay_dividends_pays_example =
    pay_dividends_pays cfg payment_json account_json outside 40 due x_bundle (y_bundle ∷ []) refl
      refl refl
