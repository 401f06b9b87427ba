-- ===== src/Payment/Bundle/Grouping.antt =====
-- pool/payment.go, generatePaymentBundles: the payments of each account.
use eacrpool.Prelude.{
  ◌≡◌, ◌≢◌, sym, Bool, false, List, [], ◌∷◌, ◌++◌, arith, filter, Bool-cases, inl, inr,
  if◌then◌else◌,
}
use mathlib.Core.List.{append_assoc, append-nil}
use eacrpool.Bytes.{Bytes, equal, equal_refl, equal-eq}
use eacrpool.Payment.{Payment}
use eacrpool.Payment.Bundle.{PaymentBundle, add_payment, bundle_loop, generate_payment_bundles}

-- the payments that the bundles hold for an account: those of its first bundle
abbrev pub payments_of : Bytes → List PaymentBundle → List Payment
payments_of a [] = []
payments_of a (bdl ∷ rest) = if equal bdl.account a then bdl.payments else payments_of a rest

-- No bundle of the list is for that account.
abbrev pub Absent : Bytes → List PaymentBundle → Type 0
Absent a [] = Unit
Absent a (bdl ∷ rest) = (equal a bdl.account ≡ false) × Absent a rest

-- No two bundles are for one account, and no bundle is empty.
abbrev pub OnePerAccount : List PaymentBundle → Type 0
OnePerAccount [] = Unit
OnePerAccount (bdl ∷ rest) = Absent bdl.account rest × (bdl.payments ≢ []) × OnePerAccount rest

abbrev of_account : Bytes → Payment → Bool
of_account a p = equal p.account a

payments_of-add_payment :
    (a : Bytes) (p : Payment) (bs : List PaymentBundle)
    → payments_of a (add_payment p bs) ≡ payments_of a bs ++ (if of_account a p then p ∷ [] else [])
unfolding add_payment
payments_of-add_payment a p [] = ground arith
payments_of-add_payment a p (bdl ∷ rest) = ground (
  arith,
  payments_of-add_payment a p rest,
  equal-eq p.account bdl.account,
  equal-eq p.account a,
  equal-eq bdl.account a,
  equal_refl p.account,
  append-nil bdl.payments,
  append-nil (payments_of a rest),
)

Absent-add_payment :
    (a : Bytes) (p : Payment) (bs : List PaymentBundle)
    → equal a p.account ≡ false
    → Absent a bs
    → Absent a (add_payment p bs)
unfolding add_payment
Absent-add_payment a p [] ne h = (ne, tt)
Absent-add_payment a p (bdl ∷ rest) ne h = ground (arith, Absent-add_payment a p rest ne h.1)

append-ne-nil : (ps : List Payment) (p : Payment) → ps ++ p ∷ [] ≢ []
append-ne-nil [] p = λ e. cc
append-ne-nil (q ∷ ps) p = λ e. cc

equal_comm : (a b : Bytes) → equal a b ≡ false → equal b a ≡ false
equal_comm a b h = ground (arith, equal-eq b a, equal_refl b)

OnePerAccount-add_payment :
    (p : Payment) (bs : List PaymentBundle) → OnePerAccount bs → OnePerAccount (add_payment p bs)
unfolding add_payment
OnePerAccount-add_payment p [] h = (tt, cc, tt)
OnePerAccount-add_payment p (bdl ∷ rest) h = elim (Bool-cases (equal p.account bdl.account)) [
  | inl same ↦ rw same (h.0, append-ne-nil bdl.payments p, h.2)
  | inr other ↦ rw other (
    Absent-add_payment bdl.account p rest (equal_comm p.account bdl.account other) h.0,
    h.1,
    OnePerAccount-add_payment p rest h.2,
  )
]

bundle_loop-groups :
    (a : Bytes) (bs : List PaymentBundle) (ps : List Payment)
    → payments_of a (bundle_loop bs ps) ≡ payments_of a bs ++ filter (of_account a) ps
unfolding bundle_loop
bundle_loop-groups a bs [] = sym (append-nil _)
bundle_loop-groups a bs (p ∷ ps) = ground (
  arith,
  bundle_loop-groups a (add_payment p bs) ps,
  payments_of-add_payment a p bs,
  append_assoc (payments_of a bs) (p ∷ []) (filter (of_account a) ps),
  append-nil (payments_of a bs),
)

bundle_loop-OnePerAccount :
    (bs : List PaymentBundle) (ps : List Payment)
    → OnePerAccount bs
    → OnePerAccount (bundle_loop bs ps)
unfolding bundle_loop
bundle_loop-OnePerAccount bs [] h = h
bundle_loop-OnePerAccount bs (p ∷ ps) h =
    bundle_loop-OnePerAccount (add_payment p bs) ps (OnePerAccount-add_payment p bs h)

-- The bundles hold for each account exactly its payments, in their order, in one bundle that is not
-- empty.
pub generate_payment_bundles_group :
    (ps : List Payment)
    → OnePerAccount (generate_payment_bundles ps)
      × ((a : Bytes)
          → payments_of a (generate_payment_bundles ps) ≡ filter (λ p. equal p.account a) ps)
unfolding generate_payment_bundles
generate_payment_bundles_group ps =
    (bundle_loop-OnePerAccount [] ps tt, λ a. bundle_loop-groups a [] ps)
