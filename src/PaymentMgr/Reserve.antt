-- ===== src/PaymentMgr/Reserve.antt =====
-- pool/paymentmgr.go, replenishTxFeeReserve: the reserve and the fee.
use eacrpool.Prelude.{◌+◌, ◌≤◌, ◌<◌, ◌^◌, ◌≡◌, ◌⊎◌, arith}
use eacrpool.Int64.{Int64, add64, sub64, less64}
use eacrpool.PaymentMgr.{PaymentMgr, replenish_tx_fee_reserve}

-- For a reserve, a limit and a fee that are not negative as signed numbers: what the reserve gains is
-- what the fee loses, the reserve does not pass the limit unless it was above it before, and what is
-- left of the fee is not zero only if the reserve has reached the limit.
pub replenish_conserves :
    (max : Int64) (pm : PaymentMgr) (pool_fee : Int64)
    → max < 2 ^ 63
    → pm.fee_reserve < 2 ^ 63
    → pool_fee < 2 ^ 63
    → let (pm', left) = replenish_tx_fee_reserve max pm pool_fee in
      (pm'.fee_reserve + left ≡ pm.fee_reserve + pool_fee)
      × (pm.fee_reserve ≤ pm'.fee_reserve)
      × ((pm'.fee_reserve ≤ max) ⊎ (pm'.fee_reserve ≡ pm.fee_reserve))
      × ((left ≡ 0) ⊎ (max ≤ pm'.fee_reserve))
unfolding replenish_tx_fee_reserve add64 sub64 less64
replenish_conserves max pm pool_fee hm hr hf = ground arith
