-- ===== src/Share.antt =====
-- pool/share.go: shares, the queries that select those a payment scheme counts, the percentages of
-- accounts, and the payments of a mined block.
pub mod Eligible
pub mod Percentages
use eacrpool.Prelude.{
  ℕ, ◌+◌, length, Bool, true, not, Option, none, some, List, [], ◌∷◌, ◌++◌, map, reverse,
  if◌then◌else◌,
}
use eacrpool.Errors.{Result, ok, err, panic, make_error, not_supported, divide_by_zero}
use eacrpool.Bytes.{Bytes, equal, less}
use eacrpool.Bolt.{Bolt}
use eacrpool.Int64.{Int64, sub64}
use eacrpool.Rat.{Rat, add, quo, zero_rat, is_zero}
use eacrpool.Json.{Json}
use eacrpool.Ids.{nano_to_big_endian_bytes}
use eacrpool.Db.{Db, Tx, share_bkt, fetch_bucket, update}
use eacrpool.Db.Buckets.{pool_fees_k}
use eacrpool.Db.Records.{decoded, put_value}
use eacrpool.Db.Prune.{prune_tx}
use eacrpool.Payment.{Payment, new_payment}

pub record Share : Type 0 where
  pub account : Bytes
  pub weight : Rat
  pub created_on : ℕ

-- `now` is the clock in nanoseconds.
unfoldable pub new_share : ℕ → Bytes → Rat → Share
new_share now account weight = record { account = account; weight = weight; created_on = now }

module _ {B : Bolt} where
  -- `Create`
  unfoldable pub create_share : Json Share → Share → Db B → Result (Unit {0}) × Db B
  create_share json s =
      update (put_value share_bkt (nano_to_big_endian_bytes s.created_on) (json.marshal s))

  -- `Update` and `Delete`
  unfoldable pub update_share : Share → Db B → Result (Unit {0}) × Db B
  update_share s d = (err (make_error not_supported), d)

  unfoldable pub delete_share : Share → Db B → Result (Unit {0}) × Db B
  delete_share s d = (err (make_error not_supported), d)

-- `c.Seek(min)`, and on to the end: the entries from the first key that is not below `min`
unfoldable pub seek : Bytes → List (Bytes × Bytes) → List (Bytes × Bytes)
seek min [] = []
seek min (e ∷ rest) = if less e.0 min then seek min rest else e ∷ rest

module _ (json : Json Share) where
  -- A loop that appends the share of each entry, up to the first key that fails the test.
  unfoldable pub share_loop :
      (Bytes → Bool) → List Share → List (Bytes × Bytes) → Result (List Share)
  share_loop goes_on shares [] = ok shares
  share_loop goes_on shares ((k, v) ∷ rest) =
      let next : Result (List Share) = elim (decoded json v) [
        | err e ↦ err e
        | panic ↦ panic
        | ok share ↦ share_loop goes_on (shares ++ share ∷ []) rest
      ] in
      if goes_on k then next else ok shares

  module _ {B : Bolt} where
    -- `min` may be nil
    unfoldable pub pps_eligible_shares : Option Bytes → Bytes → Db B → Result (List Share)
    unfolding share_loop seek
    pps_eligible_shares min max d = elim (fetch_bucket share_bkt d) [
      | err e ↦ err e
      | panic ↦ panic
      | ok b ↦ elim min [
        | none ↦ share_loop (λ k. true) [] (B.entries b)
        | some m ↦ share_loop (λ k. not (less max k)) [] (seek m (B.entries b))
      ]
    ]

    unfoldable pub pplns_eligible_shares : Bytes → Db B → Result (List Share)
    unfolding share_loop
    pplns_eligible_shares min d = elim (fetch_bucket share_bkt d) [
      | err e ↦ err e
      | panic ↦ panic
      | ok b ↦ share_loop (λ k. less min k) [] (reverse (B.entries b))
    ]

-- A Go map from accounts to rationals; it is ranged over in some order, here that of the list.
abbrev pub Tally : Type 0
Tally = List (Bytes × Rat)

-- The weight is added to the account's, or begins it.
unfoldable pub add_weight : Bytes → Rat → Tally → Tally
add_weight a w [] = (a, w) ∷ []
add_weight a w ((b, c) ∷ t) = if equal b a then (b, add c w) ∷ t else (b, c) ∷ add_weight a w t

unfoldable pub tally_loop : Rat → Tally → List Share → Rat × Tally
unfolding add_weight
tally_loop total_shares tally [] = (total_shares, tally)
tally_loop total_shares tally (share ∷ rest) =
    tally_loop (add total_shares share.weight) (add_weight share.account share.weight tally) rest

unfoldable pub percentage_loop : Rat → Tally → Result Tally
percentage_loop total_shares [] = ok []
percentage_loop total_shares ((account, share_count) ∷ rest) =
    let more = percentage_loop total_shares rest in
    if is_zero share_count then err (make_error divide_by_zero) else elim more [
      | err e ↦ err e
      | panic ↦ panic
      | ok percentages ↦ ok ((account, quo share_count total_shares) ∷ percentages)
    ]

unfoldable pub share_percentages : List Share → Result Tally
unfolding tally_loop percentage_loop
share_percentages shares =
    let (total_shares, tally) = tally_loop zero_rat [] shares in percentage_loop total_shares tally

-- What payments rest on outside the repository: 64-bit floats, Rat.Float64 and
-- dcrutil.Amount.MulF64.
pub record Floats : Type 1 where
  pub Float : Type 0
  pub float64 : Rat → Float
  pub mul_f64 : Int64 → Float → Int64

-- The payments are created one after the other; `clock i` is what the clock reads for the `i`-th.
module _ (F : Floats) (clock : ℕ → ℕ) where
  unfoldable pub payment_loop : ℕ → Int64 → ℕ → ℕ → Tally → List Payment
  payment_loop i amt_sans_fees height est_maturity [] = []
  payment_loop i amt_sans_fees height est_maturity ((account, percentage) ∷ rest) =
      new_payment (clock i) account (F.mul_f64 amt_sans_fees (F.float64 percentage)) height
        est_maturity
      ∷ payment_loop (i + 1) amt_sans_fees height est_maturity rest

  unfoldable pub calculate_payments : Tally → Int64 → F.Float → ℕ → ℕ → List Payment
  unfolding payment_loop
  calculate_payments percentages total pool_fee height est_maturity =
      let fee = F.mul_f64 total pool_fee in
      payment_loop 0 (sub64 total fee) height est_maturity percentages
      ++ new_payment (clock (length percentages)) pool_fees_k fee height est_maturity ∷ []

-- whether pruneShares notes the key of an entry for deletion
unfoldable pub is_share_old : Bytes → Bytes × Bytes → Result Bool
is_share_old min_bytes (k, v) = ok (less k min_bytes)

unfoldable pub prune_shares_tx : {B : Bolt} → ℕ → Tx B (Unit {0})
unfolding is_share_old
prune_shares_tx min_nano = prune_tx share_bkt (is_share_old (nano_to_big_endian_bytes min_nano))
