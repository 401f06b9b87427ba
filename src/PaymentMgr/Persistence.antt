-- ===== src/PaymentMgr/Persistence.antt =====
-- pool/paymentmgr.go: the values that the payment manager persists and loads.
use eacrpool.Prelude.{
  ℕ, ◌%◌, ◌^◌, ◌<◌, ◌≤◌, ◌≢◌, ◌≡◌, refl, sym, ap, ◌∙◌, true, Option, some, [], arith,
}
use eacrpool.Errors.{Result, ok}
use eacrpool.Bytes.{Bytes, equal, put_uint32_le, put_uint64_be}
use eacrpool.Bytes.Codec.{uint32_le-put_uint32_le, uint64_be-put_uint64_be}
use eacrpool.Bolt.{Bolt, lookup}
use eacrpool.Ids.{nano_to_big_endian_bytes}
use eacrpool.Db.{PoolBkt, Db, Tx, update, ◌>>◌}
use eacrpool.Db.Buckets.{
  last_payment_height, last_payment_paid_on, last_payment_created_on, tx_fee_reserve,
}
use eacrpool.PaymentMgr.{
  PaymentMgr, put_pool_value, load_value, persist_last_payment_height, persist_last_payment_paid_on,
  persist_last_payment_created_on, persist_tx_fee_reserve, new_payment_mgr,
  load_last_payment_height, load_last_payment_paid_on, load_last_payment_created_on,
  load_tx_fee_reserve,
}

-- The machine words of a manager are in range.
pub record IsWord (pm : PaymentMgr) : Type 0 where
  pub height : pm.height < 2 ^ 32
  pub paid_on : pm.paid_on < 2 ^ 64
  pub created_on : pm.created_on < 2 ^ 64

module _ {B : Bolt} where
  put_pool_value-ok :
      (k v : Bytes) (p : PoolBkt B)
      → B.fits k v ≡ true
      → put_pool_value k v (some p) ≡ ok (tt, some (record p { values = B.store p.values k v }))
  unfolding put_pool_value
  put_pool_value-ok k v p f = ground arith

  load_value-some :
      {v : Bytes} {n : ℕ} (k : Bytes) (decode : Bytes → Option ℕ) (zeros : Bytes) (p : PoolBkt B)
      → lookup k (B.entries p.values) ≡ some v
      → decode v ≡ some n
      → load_value k decode zeros (some p) ≡ ok (n, some p)
  unfolding load_value
  load_value-some k decode zeros p h e = ground arith

  -- The values of a manager under their keys.
  record IsStored (pm : PaymentMgr) (p : PoolBkt B) : Type 0 where
    height : lookup last_payment_height (B.entries p.values) ≡ some (put_uint32_le pm.height)
    paid_on : lookup last_payment_paid_on (B.entries p.values) ≡ some (put_uint64_be pm.paid_on)
    created_on :
        lookup last_payment_created_on (B.entries p.values) ≡ some (put_uint64_be pm.created_on)
    fee_reserve :
        lookup tx_fee_reserve (B.entries p.values) ≡ some (put_uint32_le (pm.fee_reserve % 2 ^ 32))

  -- the four writes, in the order in which payPerShare and payDividends make them
  abbrev pub persist_all : PaymentMgr → Tx B (Unit {0})
  persist_all pm =
      persist_last_payment_created_on pm
      >> persist_tx_fee_reserve pm
      >> persist_last_payment_height pm
      >> persist_last_payment_paid_on pm

-- A new manager has the persisted values, the reserve cut to 32 bits, and no requests.
abbrev pub restored : PaymentMgr → PaymentMgr
restored pm = record pm { fee_reserve = pm.fee_reserve % 2 ^ 32; payment_reqs = [] }

-- Bolt takes the four pairs.
pub record AllFit (B : Bolt) (pm : PaymentMgr) : Type 0 where
  pub height : B.fits last_payment_height (put_uint32_le pm.height) ≡ true
  pub paid_on : B.fits last_payment_paid_on (put_uint64_be pm.paid_on) ≡ true
  pub created_on : B.fits last_payment_created_on (put_uint64_be pm.created_on) ≡ true
  pub fee_reserve : B.fits tx_fee_reserve (put_uint32_le (pm.fee_reserve % 2 ^ 32)) ≡ true

module _ {B : Bolt} where
  -- the pool bucket after the four writes
  abbrev written : PaymentMgr → PoolBkt B → PoolBkt B
  written pm p = record p {
    values =
        B.store
          (B.store
            (B.store (B.store p.values last_payment_created_on (put_uint64_be pm.created_on))
              tx_fee_reserve (put_uint32_le (pm.fee_reserve % 2 ^ 32)))
            last_payment_height (put_uint32_le pm.height))
          last_payment_paid_on (put_uint64_be pm.paid_on);
  }

  persist_all-written :
      (pm : PaymentMgr) (p : PoolBkt B)
      → AllFit B pm
      → update (persist_all pm) (some p) ≡ (ok tt, some (written pm p))
  unfolding persist_last_payment_created_on persist_tx_fee_reserve persist_last_payment_height
      persist_last_payment_paid_on put_pool_value update nano_to_big_endian_bytes
  persist_all-written pm p f = ground arith

  written-IsStored : (pm : PaymentMgr) (p : PoolBkt B) → IsStored pm (written pm p)
  unfolding equal
  written-IsStored pm p = record {
    height = simp B.lookup-store;
    paid_on = simp B.lookup-store;
    created_on = simp B.lookup-store;
    fee_reserve = simp B.lookup-store;
  }

  load_stored :
      (pm : PaymentMgr) (p : PoolBkt B)
      → IsWord pm
      → IsStored pm p
      → new_payment_mgr (some p) ≡ (ok (restored pm), some p)
  unfolding new_payment_mgr load_last_payment_height load_last_payment_paid_on
      load_last_payment_created_on load_tx_fee_reserve update
  load_stored pm p w s = ground (
    arith,
    uint32_le-put_uint32_le pm.height w.height,
    uint64_be-put_uint64_be pm.paid_on w.paid_on,
    uint64_be-put_uint64_be pm.created_on w.created_on,
    uint32_le-put_uint32_le (pm.fee_reserve % 2 ^ 32) (omega arith),
  )

  -- Where the manager's words are in range and Bolt takes its values, a manager that is created after
  -- they were persisted has the same heights and times, the fee reserve modulo 2 ^ 32 and no payment
  -- requests, and creating it changes nothing.
  pub new_payment_mgr_restores :
      (pm : PaymentMgr) (p : PoolBkt B)
      → IsWord pm
      → AllFit B pm
      → let (r, d) = update (persist_all pm) (some p) in
        (r ≡ ok tt) × (new_payment_mgr d ≡ (ok (restored pm), d))
  new_payment_mgr_restores pm p w f =
      rw (persist_all-written pm p f)
        (refl, load_stored pm (written pm p) w (written-IsStored pm p))

  abbrev reserve_of : Result PaymentMgr × Db B → ℕ
  reserve_of (ok pm, d) = pm.fee_reserve
  reserve_of _ = 0

  -- Where the manager's words are in range and Bolt takes its values, a new manager does not restore a
  -- reserve of 2 ^ 32 atoms or more.
  new_payment_mgr_loses_reserve :
      (pm : PaymentMgr) (p : PoolBkt B)
      → IsWord pm
      → AllFit B pm
      → 2 ^ 32 ≤ pm.fee_reserve
      → new_payment_mgr (update (persist_all pm) (some p)).1
        ≢ (ok (record pm { payment_reqs = [] }), (update (persist_all pm) (some p)).1)
  new_payment_mgr_loses_reserve pm p w f big e =
      omega (arith, ap reserve_of (sym (new_payment_mgr_restores pm p w f).1 ∙ e))
