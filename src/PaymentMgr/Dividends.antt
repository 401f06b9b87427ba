-- ===== src/PaymentMgr/Dividends.antt =====
-- pool/paymentmgr.go: payDividends, the payout of mature payments in one transaction.
pub mod Outcomes
pub mod Paid
use eacrpool.Prelude.{
  ℕ, zero, suc, ◌+◌, ◌-◌, ◌%◌, ◌^◌, Bool, true, false, not, Option, none, some, List, [], ◌∷◌, ◌&&◌,
  ltb, ◌==◌, length, if◌then◌else◌,
}
use eacrpool.Errors.{Result, ok, err, panic, foreign}
use eacrpool.Bytes.{Bytes}
use eacrpool.Bolt.{Bolt, lookup}
use eacrpool.Int64.{Int64}
use eacrpool.Json.{Json}
use eacrpool.Account.{Account, Network}
use eacrpool.Share.{Floats}
use eacrpool.Payment.{Payment}
use eacrpool.Payment.Bundle.{PaymentBundle, update_as_paid}
use eacrpool.Payment.Details.{Outputs, set_output, delete_output, generate_payment_details}
use eacrpool.Payment.Archive.{archive_payments}
use eacrpool.Db
use eacrpool.Db.{Db, Tx, update}
use eacrpool.Exec.{Exec, pure, lift, gets, reads, modify, ◌>>=◌, ◌>>◌}
use eacrpool.PaymentMgr.{
  PaymentMgrConfig, PaymentMgr, replenish_tx_fee_reserve, persist_tx_fee_reserve,
  persist_last_payment_height, persist_last_payment_paid_on,
}
use eacrpool.PaymentMgr.Schemes.{State, on_db}
use eacrpool.PaymentMgr.Eligible.{fetch_eligible_payment_bundles}

-- What payDividends uses from outside the repository or gets from its callers: the network, the dust
-- test, the random index, the wallet and the clock.
pub record Outside : Type 0 where
  pub net : Network
  pub is_dust_amount : Int64 → Bool
  -- `rand.Intn n` is this number modulo `n`.
  pub random : ℕ
  pub publish_transaction : Outputs → Int64 → Result Bytes
  -- what the clock reads while the `i`-th bundle is archived
  pub clock : ℕ → ℕ → ℕ

-- `addrs[i]`, with the panics of an index out of range and of `rand.Intn 0`
unfoldable pub address_at : ℕ → List Bytes → Result Bytes
address_at i [] = panic
address_at zero (a ∷ as') = ok a
address_at (suc i) (a ∷ as') = address_at i as'

unfoldable pub pick_address : ℕ → List Bytes → Result Bytes
unfolding address_at
pick_address n addrs = if length addrs == 0 then panic else address_at (n % length addrs) addrs

-- dcrutil.DecodeAddress of each output's address
unfoldable pub all_addresses : Network → Outputs → Result (Unit {0})
all_addresses net [] = ok tt
all_addresses net ((a, v) ∷ m) =
    let rest = all_addresses net m in if net.is_address a then rest else err foreign

module _ {B : Bolt} (payment_json : Json Payment) where
  -- Each bundle is marked as paid and archived, up to the first that fails.
  unfoldable pub archive_bundles :
      (ℕ → ℕ → ℕ) → ℕ → ℕ → Bytes → List PaymentBundle → Db B → Result (Unit {0}) × Db B
  archive_bundles clock i height txid [] d = (ok tt, d)
  archive_bundles clock i height txid (b ∷ bs) d =
      let (r, d') = archive_payments payment_json (clock i) (update_as_paid height txid b) d in
      let rest = archive_bundles clock (suc i) height txid bs d' in
      elim r [ ok _ ↦ rest | err e ↦ (err e, d') | panic ↦ (panic, d') ]

-- The fees that were collected are first used for the reserve; the rest, if any, is paid out.
unfoldable pub apply_reserve : Int64 → Bytes → Outputs → PaymentMgr → Outputs × PaymentMgr
apply_reserve max addr details pm = elim (lookup addr details) [
  | none ↦ (details, pm)
  | some pool_fee ↦
      let (pm', updated_fee) = replenish_tx_fee_reserve max pm pool_fee in
      if updated_fee == 0
      then (delete_output addr details, pm')
      else (set_output addr updated_fee details, pm')
]

-- Fewer than three blocks since the last payment; the difference is a 32-bit word.
unfoldable pub is_waiting : ℕ → PaymentMgr → Bool
is_waiting height pm = not (pm.height == 0) && ltb ((height + 2 ^ 32 - pm.height) % 2 ^ 32) 3

module _ {B : Bolt} {F : Floats} (cfg : PaymentMgrConfig F) (payment_json : Json Payment)
    (account_json : Json Account) (out : Outside) where
  -- The last transaction: a failure to store the reserve comes before the height is set.
  unfoldable pub persist_payment : ℕ → Exec (State B) (Unit {0})
  persist_payment height s =
      let pm' = record s.mgr { height = height } in
      let stored =
        update
          (Db.◌>>◌ (persist_tx_fee_reserve s.mgr)
            (Db.◌>>◌ (persist_last_payment_height pm') (persist_last_payment_paid_on pm')))
          s.db in
      elim (persist_tx_fee_reserve s.mgr s.db) [
        | ok _ ↦ (stored.0, record { mgr = pm'; db = stored.1 })
        | err e ↦ (err e, s)
        | panic ↦ (panic, s)
      ]

  -- from the choice of the fee address on
  unfoldable pub pay_bundles : ℕ → List PaymentBundle → Exec (State B) (Unit {0})
  unfolding apply_reserve
  pay_bundles height eligible_pmts = do
    addr ← lift (pick_address out.random cfg.pool_fee_addrs)
    found ← reads (λ s. generate_payment_details account_json s.db addr eligible_pmts)
    pm ← gets (λ s. s.mgr)
    let applied = apply_reserve cfg.max_tx_fee_reserve addr found.0 pm
    modify (λ s. record s { mgr = applied.1 })
    lift (all_addresses out.net applied.0)
    txid ← lift (out.publish_transaction applied.0 found.1)
    on_db (archive_bundles payment_json out.clock 0 height txid eligible_pmts)
    persist_payment height

  unfoldable pub pay_dividends : ℕ → Exec (State B) (Unit {0})
  pay_dividends height s =
      let paid =
        (do
          eligible_pmts ← reads (λ t.
              fetch_eligible_payment_bundles cfg.min_payment out.is_dust_amount t.mgr.payment_reqs
                payment_json height t.db)
          modify (λ t. record t { mgr = record t.mgr { payment_reqs = [] } })
          if length eligible_pmts == 0 then pure tt else pay_bundles height eligible_pmts)
          s in
      if is_waiting height s.mgr then (ok tt, s) else paid
