-- ===== src/PaymentMgr/Dividends/Outcomes.antt =====
-- pool/paymentmgr.go, payDividends: the state after a payout that is not published.
use eacrpool.Prelude.{ℕ, ◌≡◌, ◌≢◌, ◌⊎◌, inl, inr, true, List, [], ◌∷◌, arith}
use eacrpool.Errors.{result_cases, Error, ok, err}
use eacrpool.Bytes.{Bytes}
use eacrpool.Bolt.{Bolt}
use eacrpool.Int64.{Int64}
use eacrpool.Json.{Json}
use eacrpool.Account.{Account}
use eacrpool.Share.{Floats}
use eacrpool.Payment.{Payment}
use eacrpool.Payment.Bundle.{PaymentBundle}
use eacrpool.Payment.Details.{Outputs, generate_payment_details}
use eacrpool.PaymentMgr.{PaymentMgrConfig, PaymentMgr, replenish_tx_fee_reserve}
use eacrpool.PaymentMgr.Schemes.{State}
use eacrpool.PaymentMgr.Eligible.{fetch_eligible_payment_bundles}
use eacrpool.PaymentMgr.Dividends.{
  Outside, pick_address, apply_reserve, is_waiting, pay_bundles, pay_dividends,
}

height-apply_reserve :
    (max : Int64) (addr : Bytes) (m : Outputs) (pm : PaymentMgr)
    → (apply_reserve max addr m pm).1.height ≡ pm.height
unfolding apply_reserve replenish_tx_fee_reserve
height-apply_reserve max addr m pm = ground arith

module _ {B : Bolt} {F : Floats} (cfg : PaymentMgrConfig F) (payment_json : Json Payment)
    (account_json : Json Account) (out : Outside) (height : ℕ) where
  pay_bundles_unpublished :
      (s : State B) (bundles : List PaymentBundle)
      → ((outputs : Outputs) (amount : Int64)
          → (e : Error) × (out.publish_transaction outputs amount ≡ err e))
      → let (r, s') = pay_bundles cfg payment_json account_json out height bundles s in
        (r ≢ ok tt) × (s'.db ≡ s.db) × (s'.mgr.height ≡ s.mgr.height)
  unfolding pay_bundles
  pay_bundles_unpublished s bundles fails =
      elim (result_cases (pick_address out.random cfg.pool_fee_addrs)) [
        | inl (addr, found) ↦
            elim (result_cases (generate_payment_details account_json s.db addr bundles)) [
              | inl (details, made) ↦ ground (
                arith,
                fails (apply_reserve cfg.max_tx_fee_reserve addr details.0 s.mgr).0 details.1,
                height-apply_reserve cfg.max_tx_fee_reserve addr details.0 s.mgr,
              )
              | inr (inl (e, failed)) ↦ ground arith
              | inr (inr failed) ↦ ground arith
            ]
        | inr (inl (e, failed)) ↦ ground arith
        | inr (inr failed) ↦ ground arith
      ]

  -- If the wallet refuses every transaction, payDividends changes neither the database nor the height
  -- of the last payment, and it succeeds only where it waits or no bundle is eligible.
  pub pay_dividends_unpublished :
      (s : State B)
      → ((outputs : Outputs) (amount : Int64)
          → (e : Error) × (out.publish_transaction outputs amount ≡ err e))
      → let (r, s') = pay_dividends cfg payment_json account_json out height s in
        (s'.db ≡ s.db)
        × (s'.mgr.height ≡ s.mgr.height)
        × ((r ≢ ok tt)
            ⊎ (is_waiting height s.mgr ≡ true)
            ⊎ (fetch_eligible_payment_bundles cfg.min_payment out.is_dust_amount s.mgr.payment_reqs
                  payment_json height s.db
                ≡ ok []))
  unfolding pay_dividends
  pay_dividends_unpublished s fails =
      elim (result_cases (
        fetch_eligible_payment_bundles cfg.min_payment out.is_dust_amount s.mgr.payment_reqs
          payment_json height s.db)) [
            | inl ([], found) ↦ ground arith
            | inl (b ∷ bs, found) ↦ ground (
              arith,
              pay_bundles_unpublished (record s { mgr = record s.mgr { payment_reqs = [] } })
                  (b ∷ bs) fails,
            )
            | inr (inl (e, failed)) ↦ ground arith
            | inr (inr failed) ↦ ground arith
          ]
