-- ===== src/PaymentMgr/Schemes.antt =====
-- pool/paymentmgr.go: the percentages due under the two payment schemes, and the payments that a mined
-- block generates.
use eacrpool.Prelude.{ℕ, ◌==◌, ◌+◌, ◌*◌, ◌%◌, ◌^◌, some, List, [], ◌∷◌, if◌then◌else◌}
use eacrpool.Errors.{Result, ok, err, panic, foreign}
use eacrpool.Bytes.{Bytes, equal}
use eacrpool.Text.{codes}
use eacrpool.Bolt.{Bolt}
use eacrpool.Int64.{Int64, sub64}
use eacrpool.Json.{Json}
use eacrpool.Ids.{nano_to_big_endian_bytes}
use eacrpool.Share.{
  Share, Tally, Floats, pps_eligible_shares, pplns_eligible_shares, share_percentages,
  calculate_payments, prune_shares_tx,
}
use eacrpool.Payment.{Payment, create_payment}
use eacrpool.Db.{Db, Tx, update}
use eacrpool.Db
use eacrpool.Exec.{Exec, gets, reads, modify, ◌>>=◌, ◌>>◌}
use eacrpool.PaymentMgr.{PaymentMgrConfig, PaymentMgr, persist_last_payment_created_on}

abbrev pub pps : Bytes
pps = codes "pps"

abbrev pub pplns : Bytes
pplns = codes "pplns"

-- a manager with its database
pub record State (B : Bolt) : Type 0 where
  pub mgr : PaymentMgr
  pub db : Db B

module _ {B : Bolt} where
  -- a call on the database alone
  abbrev pub on_db : {A : Type 0} → (Db B → Result A × Db B) → Exec (State B) A
  on_db f s = let (r, d) = f s.db in (r, record s { db = d })

-- `time.Second * time.Duration(n)` before `now`, in nanoseconds
abbrev pub seconds_before : ℕ → ℕ → Int64
seconds_before n now = sub64 now (n * 1_000_000_000 % 2 ^ 64)

-- the percentages of the shares, or none where there are no shares
unfoldable pub percentages_of : List Share → Result Tally
percentages_of [] = ok []
percentages_of (s ∷ shares) = share_percentages (s ∷ shares)

module _ {B : Bolt} (json : Json Share) where
  unfoldable pub pps_share_percentages : ℕ → State B → Result Tally
  pps_share_percentages now s =
      elim (pps_eligible_shares json (some (nano_to_big_endian_bytes s.mgr.created_on))
        (nano_to_big_endian_bytes now) s.db) [
          | ok shares ↦ percentages_of shares
          | err e ↦ err e
          | panic ↦ panic
        ]

  unfoldable pub pplns_share_percentages : ℕ → ℕ → State B → Result Tally
  pplns_share_percentages last_n_period now s =
      elim (pplns_eligible_shares json (nano_to_big_endian_bytes (seconds_before last_n_period now))
        s.db) [ ok shares ↦ percentages_of shares | err e ↦ err e | panic ↦ panic ]

-- The time of the last payment of the list.
unfoldable pub last_created_on : ℕ → List Payment → ℕ
last_created_on t [] = t
last_created_on t (p ∷ ps) = last_created_on p.created_on ps

module _ {B : Bolt} (payment_json : Json Payment) where
  -- Each payment in a transaction of its own, up to the first that fails.
  unfoldable pub create_payments : List Payment → Db B → Result (Unit {0}) × Db B
  create_payments [] d = (ok tt, d)
  create_payments (p ∷ ps) d =
      let (r, d') = create_payment payment_json p d in
      let rest = create_payments ps d' in
      elim r [ ok _ ↦ rest | err e ↦ (err e, d') | panic ↦ (panic, d') ]

-- The clock's readings: `start` at the start of a call, `query` where the shares are selected,
-- `payment i` where the `i`-th payment is made, and `prune` before the shares are pruned.
pub record Clock : Type 0 where
  pub start : ℕ
  pub query : ℕ
  pub payment : ℕ → ℕ
  pub prune : ℕ

module _ {B : Bolt} {F : Floats} (cfg : PaymentMgrConfig F) (share_json : Json Share)
    (payment_json : Json Payment) (clock : Clock) where
  -- What both schemes do with the percentages: create the payments, note the time of the last one and
  -- prune the shares before `min_nano`.
  unfoldable pub settle : Tally → Int64 → ℕ → ℕ → ℕ → Exec (State B) (Unit {0})
  settle percentages coinbase height est_maturity min_nano = do
    let payments =
        calculate_payments F clock.payment percentages coinbase cfg.pool_fee height est_maturity
    on_db (create_payments payment_json payments)
    modify (λ s. record s { mgr = record s.mgr { created_on = last_created_on 0 payments } })
    pm ← gets (λ s. s.mgr)
    on_db (update (Db.◌>>◌ (persist_last_payment_created_on pm) (prune_shares_tx min_nano)))

  unfoldable pub pay_per_share : Int64 → ℕ → Exec (State B) (Unit {0})
  unfolding settle pps_share_percentages
  pay_per_share coinbase height = do
    percentages ← reads (pps_share_percentages share_json clock.query)
    settle percentages coinbase height ((height + cfg.coinbase_maturity) % 2 ^ 32) clock.start

  unfoldable pub pay_per_last_n_shares : Int64 → ℕ → Exec (State B) (Unit {0})
  unfolding settle pplns_share_percentages
  pay_per_last_n_shares coinbase height = do
    percentages ← reads (pplns_share_percentages share_json cfg.last_n_period clock.query)
    let est_maturity =
        if cfg.coinbase_maturity == 0 then height else (height + cfg.coinbase_maturity) % 2 ^ 32
    settle percentages coinbase height est_maturity (seconds_before cfg.last_n_period clock.prune)

  unfoldable pub generate_payments : ℕ → Int64 → Exec (State B) (Unit {0})
  unfolding pay_per_share pay_per_last_n_shares
  generate_payments height coinbase s =
      if equal cfg.payment_method pps
      then pay_per_share coinbase height s
      else if equal cfg.payment_method pplns
      then pay_per_last_n_shares coinbase height s
      else (err foreign, s)
