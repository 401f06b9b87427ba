-- ===== src/PaymentMgr.antt =====
-- pool/paymentmgr.go: the payment manager's state, what it persists of it, and the fee reserve.
pub mod Persistence
pub mod Reserve
pub mod Schemes
pub mod Eligible
pub mod Dividends
pub mod Frames
use eacrpool.Prelude.{
  ℕ, Bool, true, false, Option, none, some, List, [], ◌∷◌, ◌||◌, if◌then◌else◌, ◌+◌, ◌-◌, ◌%◌, ◌^◌,
}
use eacrpool.Errors.{Result, ok, err, panic, make_error, foreign}
use eacrpool.Bytes.{Bytes, equal, put_uint32_be, put_uint32_le, put_uint64_be, uint32_le, uint64_be}
use eacrpool.Bolt.{Bolt, lookup}
use eacrpool.Int64.{Int64, add64, sub64, less64}
use eacrpool.Account.{Network, account_id}
use eacrpool.Ids.{nano_to_big_endian_bytes}
use eacrpool.Share.{Floats}
use eacrpool.Db.{PoolBkt, Db, Tx, update, put, pool_bucket, read, write_values, ◌>>=◌}
use eacrpool.Db.Buckets.{
  last_payment_height, last_payment_paid_on, last_payment_created_on, tx_fee_reserve,
}

-- PaymentMgrConfig, less the database and the callbacks
pub record PaymentMgrConfig (F : Floats) : Type 0 where
  pub coinbase_maturity : ℕ
  pub pool_fee : F.Float
  pub last_n_period : ℕ
  pub payment_method : Bytes
  pub min_payment : Int64
  pub pool_fee_addrs : List Bytes
  pub max_tx_fee_reserve : Int64

pub record PaymentMgr : Type 0 where
  pub height : ℕ
  pub paid_on : ℕ
  pub created_on : ℕ
  pub fee_reserve : Int64
  pub payment_reqs : List Bytes

-- A value of the pool bucket is stored or read.
module _ {B : Bolt} where
  unfoldable pub put_pool_value : Bytes → Bytes → Tx B (Unit {0})
  unfolding pool_bucket put
  put_pool_value k v d = elim (pool_bucket d) [
    | err e ↦ err e
    | panic ↦ panic
    | ok p ↦ elim (put B p.values k v) [ ok b ↦ write_values b d | err e ↦ err e | panic ↦ panic ]
  ]

  unfoldable pub persist_last_payment_height : PaymentMgr → Tx B (Unit {0})
  persist_last_payment_height pm = put_pool_value last_payment_height (put_uint32_le pm.height)

  unfoldable pub persist_last_payment_paid_on : PaymentMgr → Tx B (Unit {0})
  persist_last_payment_paid_on pm =
      put_pool_value last_payment_paid_on (nano_to_big_endian_bytes pm.paid_on)

  unfoldable pub persist_last_payment_created_on : PaymentMgr → Tx B (Unit {0})
  persist_last_payment_created_on pm =
      put_pool_value last_payment_created_on (nano_to_big_endian_bytes pm.created_on)

  -- `uint32(pm.txFeeReserve)` keeps the low 32 bits.
  unfoldable pub persist_tx_fee_reserve : PaymentMgr → Tx B (Unit {0})
  persist_tx_fee_reserve pm =
      put_pool_value tx_fee_reserve (put_uint32_le (pm.fee_reserve % 2 ^ 32))

  -- What a load sets: zero, which is then stored as `zeros`, where there is no value, and else the
  -- value decoded; decoding a short value panics.
  unfoldable pub load_value : Bytes → (Bytes → Option ℕ) → Bytes → Tx B ℕ
  unfolding pool_bucket put_pool_value
  load_value k decode zeros d = elim (pool_bucket d) [
    | err e ↦ err e
    | panic ↦ panic
    | ok p ↦ elim (lookup k (B.entries p.values)) [
      | some v ↦ elim (decode v) [ none ↦ panic | some n ↦ ok (n, d) ]
      | none ↦ elim (put_pool_value k zeros d) [
        | ok (_, d') ↦ ok (0, d')
        | err e ↦ err e
        | panic ↦ panic
      ]
    ]
  ]

  unfoldable pub load_last_payment_height : Tx B ℕ
  load_last_payment_height = load_value last_payment_height uint32_le (put_uint32_le 0)

  unfoldable pub load_last_payment_paid_on : Tx B ℕ
  load_last_payment_paid_on = load_value last_payment_paid_on uint64_be (put_uint64_be 0)

  unfoldable pub load_last_payment_created_on : Tx B ℕ
  load_last_payment_created_on = load_value last_payment_created_on uint64_be (put_uint64_be 0)

  unfoldable pub load_tx_fee_reserve : Tx B Int64
  load_tx_fee_reserve = load_value tx_fee_reserve uint32_le (put_uint32_le 0)

  unfoldable pub new_payment_mgr : Db B → Result PaymentMgr × Db B
  unfolding load_last_payment_height load_last_payment_paid_on load_last_payment_created_on
      load_tx_fee_reserve load_value update
  new_payment_mgr = update (do
    height ← load_last_payment_height
    paid_on ← load_last_payment_paid_on
    created_on ← load_last_payment_created_on
    reserve ← load_tx_fee_reserve
    λ d. ok (
      record {
        height = height;
        paid_on = paid_on;
        created_on = created_on;
        fee_reserve = reserve;
        payment_reqs = [];
      },
      d,
    ))

-- The new reserve, and what is left of the collected fees; `max` is MaxTxFeeReserve.
unfoldable pub replenish_tx_fee_reserve : Int64 → PaymentMgr → Int64 → PaymentMgr × Int64
replenish_tx_fee_reserve max pm pool_fee =
    let diff = sub64 max pm.fee_reserve in
    if less64 pm.fee_reserve max
    then (if less64 diff pool_fee
        then (record pm { fee_reserve = add64 pm.fee_reserve diff }, sub64 pool_fee diff)
        else (record pm { fee_reserve = add64 pm.fee_reserve pool_fee }, 0))
    else (pm, pool_fee)

-- a map to empty structs, as the list of its keys
unfoldable pub is_payment_requested : Bytes → List Bytes → Bool
is_payment_requested id [] = false
is_payment_requested id (k ∷ ks) = equal k id || is_payment_requested id ks

unfoldable pub add_payment_request : Network → Bytes → PaymentMgr → Result (Unit {0}) × PaymentMgr
unfolding is_payment_requested
add_payment_request net addr pm = elim (account_id net addr) [
  | err e ↦ (err e, pm)
  | panic ↦ (panic, pm)
  | ok id ↦
      if is_payment_requested id pm.payment_reqs
      then (err foreign, pm)
      else (ok tt, record pm { payment_reqs = id ∷ pm.payment_reqs })
]
