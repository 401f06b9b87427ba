-- ===== src/Tests/Managers.antt =====
-- A payment manager over the small store, with a wallet that refuses every transaction.
use eacrpool.Prelude.{
  ℕ, ◌+◌, ◌*◌, ◌/◌, ◌^◌, ◌≤◌, ◌≡◌, ◌≢◌, ◌⊎◌, refl, Bool, true, some, [], ◌∷◌, arith, ltb,
}
use eacrpool.Errors.{ok, err, foreign}
use eacrpool.Bytes.{hex_encode, hex_digit, put_uint32_be, put_uint64_be, equal, less}
use eacrpool.Int64.{Int64, add64, less64}
use eacrpool.Ids.{nano_to_big_endian_bytes}
use eacrpool.Share.{Floats}
use eacrpool.Db.{Db, update, fetch_bucket}
use eacrpool.Payment.{Payment, new_payment, generate_payment_id, payment_id}
use eacrpool.Payment.Bundle.{
  add_payment, bundle_loop, generate_payment_bundles, total_from, total, new_payment_bundle,
}
use eacrpool.PaymentMgr.{
  PaymentMgrConfig, PaymentMgr, new_payment_mgr, replenish_tx_fee_reserve, is_payment_requested,
}
use eacrpool.PaymentMgr.Persistence.{persist_all, new_payment_mgr_restores}
use eacrpool.PaymentMgr.Reserve.{replenish_conserves}
use eacrpool.PaymentMgr.Schemes.{State}
use eacrpool.PaymentMgr.Eligible.{fetch_eligible_payment_bundles}
use eacrpool.PaymentMgr.Eligible.Filter.{fetch_eligible_payment_bundles_exact}
use eacrpool.PaymentMgr.Dividends.{Outside, is_waiting, pay_dividends}
use eacrpool.PaymentMgr.Dividends.Outcomes.{pay_dividends_unpublished}
use eacrpool.Tests.Store.{Pairs, store, insert}
use eacrpool.Tests.Codecs.{payment_json, account_json, split, join, close}
use eacrpool.Tests.Fixtures.{pool, filled, only_payments}

abbrev mgr : PaymentMgr
mgr = record {
  height = 20;
  paid_on = 7;
  created_on = 9;
  fee_reserve = 5;
  payment_reqs = (120 ∷ []) ∷ [];
}

abbrev rich : PaymentMgr
rich = record mgr { fee_reserve = 2 ^ 32 + 5 }

new_payment_mgr_restores_example :
    let (r, d) = update (persist_all mgr) (some (pool (only_payments []))) in
    (r ≡ ok tt) × (new_payment_mgr d ≡ (ok (record mgr { payment_reqs = [] }), d))
new_payment_mgr_restores_example =
    new_payment_mgr_restores mgr (pool (only_payments []))
      (record { height = omega arith; paid_on = omega arith; created_on = omega arith })
      (record { height = refl; paid_on = refl; created_on = refl; fee_reserve = refl })

replenish_conserves_example :
    let (pm, left) = replenish_tx_fee_reserve 100 mgr 120 in
    (pm.fee_reserve + left ≡ 125)
    × (5 ≤ pm.fee_reserve)
    × ((pm.fee_reserve ≤ 100) ⊎ (pm.fee_reserve ≡ 5))
    × ((left ≡ 0) ⊎ (100 ≤ pm.fee_reserve))
replenish_conserves_example =
    replenish_conserves 100 mgr 120 (omega arith) (omega arith) (omega arith)

abbrev small : Payment
small = new_payment 1 (120 ∷ []) 30 5 10

abbrev large : Payment
large = new_payment 2 (121 ∷ []) 90 5 10

abbrev pending : Pairs
pending =
    (payment_id small, payment_json.marshal small)
    ∷ (payment_id large, payment_json.marshal large)
    ∷ []

abbrev pending_db : Db store
pending_db = some (pool (only_payments pending))

-- a payment below ten atoms is dust
abbrev is_dust : Int64 → Bool
is_dust n = ltb n 10

fetch_eligible_payment_bundles_exact_example :
    fetch_eligible_payment_bundles 50 is_dust [] payment_json 12 pending_db
    ≡ ok (record { account = 121 ∷ []; payments = large ∷ [] } ∷ [])
unfolding new_payment generate_payment_id nano_to_big_endian_bytes hex_encode hex_digit
    put_uint32_be put_uint64_be equal less filled insert fetch_bucket split join close add_payment
    bundle_loop generate_payment_bundles total_from total new_payment_bundle add64 less64
    is_payment_requested
fetch_eligible_payment_bundles_exact_example =
    fetch_eligible_payment_bundles_exact 50 is_dust [] payment_json 12 pending_db
      (small ∷ large ∷ []) refl (refl, (refl, tt))

-- whole percentages in place of floating point
abbrev floats : Floats
floats = record { Float = ℕ; float64 = λ r. r.num * 100 / r.den; mul_f64 = λ a f. a * f / 100 }

abbrev cfg : PaymentMgrConfig floats
cfg = record {
  coinbase_maturity = 16;
  pool_fee = 1;
  last_n_period = 60;
  payment_method = [];
  min_payment = 50;
  pool_fee_addrs = (67 ∷ []) ∷ [];
  max_tx_fee_reserve = 100;
}

abbrev outside : Outside
outside = record {
  net = record { is_address = λ a. true; blake256 = λ a. a };
  is_dust_amount = is_dust;
  random = 3;
  publish_transaction = λ outputs amount. err foreign;
  clock = λ i j. i + j;
}

abbrev idle : State store
idle = record { mgr = mgr; db = pending_db }

pay_dividends_unpublished_example :
    let (r, s) = pay_dividends cfg payment_json account_json outside 40 idle in
    (s.db ≡ pending_db)
    × (s.mgr.height ≡ 20)
    × ((r ≢ ok tt)
        ⊎ (is_waiting 40 mgr ≡ true)
        ⊎ (fetch_eligible_payment_bundles 50 is_dust ((120 ∷ []) ∷ []) payment_json 40 pending_db
            ≡ ok []))
pay_dividends_unpublished_example =
    pay_dividends_unpublished cfg payment_json account_json outside 40 idle
      (λ outputs amount. (foreign, refl))
