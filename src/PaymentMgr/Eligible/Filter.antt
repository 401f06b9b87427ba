-- ===== src/PaymentMgr/Eligible/Filter.antt =====
-- pool/paymentmgr.go, fetchEligiblePaymentBundles: the backwards loop with removals.
use eacrpool.Prelude.{
  ℕ, zero, suc, ◌≤◌, ◌<◌, ◌≡◌, refl, ap, Bool, not, ◌&&◌, ◌||◌, some, List, [], ◌∷◌, ◌++◌, length,
  take, drop, filter, filter-append, arith, leb, ◌==◌,
}
use mathlib.Core.List.{append_assoc, append-nil}
use eacrpool.Errors.{ok}
use eacrpool.Bytes.{Bytes}
use eacrpool.Bolt.{Bolt}
use eacrpool.Int64.{Int64, less64}
use eacrpool.Json.{Json}
use eacrpool.Db.{Db, payment_bkt, fetch_bucket}
use eacrpool.Payment.{Payment}
use eacrpool.Payment.Query.Filtered.{Holds, pending_payments}
use eacrpool.Payment.Bundle.{PaymentBundle, total, generate_payment_bundles}
use eacrpool.PaymentMgr.{is_payment_requested}
use eacrpool.PaymentMgr.Eligible.{bundle_at, eligible_loop, fetch_eligible_payment_bundles}

module _ {A : Type 0} where
  take_self : (xs : List A) → take (length xs) xs ≡ xs
  take_self [] = refl
  take_self (x ∷ xs) = ap (◌∷◌ x) (take_self xs)

  drop_self : (xs : List A) → drop (length xs) xs ≡ []
  drop_self [] = refl
  drop_self (x ∷ xs) = drop_self xs

-- The list around an index.
at_index :
    (i : ℕ) (bs : List PaymentBundle)
    → i < length bs
    → (b : PaymentBundle) × (bundle_at i bs ≡ some b)
      × (take (suc i) bs ≡ take i bs ++ b ∷ [])
      × (drop i bs ≡ b ∷ drop (suc i) bs)
unfolding bundle_at
at_index i [] h = absurd (omega arith)
at_index zero (b ∷ bs) h = (b, refl, refl, refl)
at_index (suc i) (b ∷ bs) h =
    let (c, at, taken, dropped) = at_index i bs (omega arith) in (c, at, ap (◌∷◌ b) taken, dropped)

take-without :
    (i : ℕ) (bs : List PaymentBundle)
    → i < length bs
    → take i (take i bs ++ drop (suc i) bs) ≡ take i bs
take-without i [] h = absurd (omega arith)
take-without zero (b ∷ bs) h = refl
take-without (suc i) (b ∷ bs) h = ap (◌∷◌ b) (take-without i bs (omega arith))

drop-without :
    (i : ℕ) (bs : List PaymentBundle)
    → i < length bs
    → drop i (take i bs ++ drop (suc i) bs) ≡ drop (suc i) bs
drop-without i [] h = absurd (omega arith)
drop-without zero (b ∷ bs) h = refl
drop-without (suc i) (b ∷ bs) h = drop-without i bs (omega arith)

length-without :
    (i : ℕ) (bs : List PaymentBundle) → i < length bs → i ≤ length (take i bs ++ drop (suc i) bs)
length-without i [] h = absurd (omega arith)
length-without zero (b ∷ bs) h = omega arith
length-without (suc i) (b ∷ bs) h = omega (arith, length-without i bs (omega arith))

module _ (min : Int64) (dust : Int64 → Bool) (reqs : List Bytes) where
  -- At least the minimum payment, or asked for and not dust.
  abbrev pub is_eligible : PaymentBundle → Bool
  is_eligible b =
      not (less64 (total b) min) || (is_payment_requested b.account reqs && not (dust (total b)))

  eligible_loop-filter :
      (i : ℕ) (bs : List PaymentBundle)
      → i ≤ length bs
      → eligible_loop min dust reqs i bs ≡ some (filter is_eligible (take i bs) ++ drop i bs)
  unfolding eligible_loop
  eligible_loop-filter zero bs h = refl
  eligible_loop-filter (suc i) bs h =
      let (b, at, taken, dropped) = at_index i bs h in
      let without = take i bs ++ drop (suc i) bs in
      ground (
        arith,
        filter-append is_eligible (take i bs) (b ∷ []),
        append_assoc (filter is_eligible (take i bs)) (b ∷ []) (drop (suc i) bs),
        append-nil (filter is_eligible (take i bs)),
        eligible_loop-filter i bs (omega arith),
        eligible_loop-filter i without (length-without i bs h),
        take-without i bs h,
        drop-without i bs h,
      )

  -- Where the payment bucket holds the payments `ps`, fetchEligiblePaymentBundles does not fail: it
  -- groups the unpaid payments that have matured and returns, in their order, exactly the bundles that
  -- reach the minimum payment, or that were asked for and are not dust.
  pub fetch_eligible_payment_bundles_exact :
      {B : Bolt} (json : Json Payment) (height : ℕ) (d : Db B) {b : B.Bucket} (ps : List Payment)
      → fetch_bucket payment_bkt d ≡ ok b
      → Holds json (B.entries b) ps
      → fetch_eligible_payment_bundles min dust reqs json height d
        ≡ ok (
            filter is_eligible (
              generate_payment_bundles
                (filter (λ p. p.paid_on_height == 0 && leb p.estimated_maturity height) ps)))
  unfolding fetch_eligible_payment_bundles
  fetch_eligible_payment_bundles_exact json height d ps found all =
      let mature = filter (λ p. p.paid_on_height == 0 && leb p.estimated_maturity height) ps in
      let bundles = generate_payment_bundles mature in
      ground (
        arith,
        (pending_payments json height d ps found all).1,
        eligible_loop-filter (length bundles) bundles (omega arith),
        take_self bundles,
        drop_self bundles,
        append-nil (filter is_eligible bundles),
      )
