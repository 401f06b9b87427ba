-- ===== src/Payment/Details/Conservation.antt =====
-- pool/payment.go, generatePaymentDetails: the outputs and the target amount.
use eacrpool.Prelude.{◌≡◌, suc, length, refl, ap, false, List, [], ◌∷◌, ◌++◌, arith}
use mathlib.Core.List.{append_assoc, append-nil}
use eacrpool.Errors.{ok}
use eacrpool.Bytes.{Bytes, equal, equal_refl}
use eacrpool.Bolt.{Bolt}
use eacrpool.Int64.{Int64, add64}
use eacrpool.Json.{Json}
use eacrpool.Account.{Account}
use eacrpool.Db.{Db}
use eacrpool.Payment.Bundle.{PaymentBundle, total}
use eacrpool.Payment.Bundle.Sums.{sum_totals}
use eacrpool.Payment.Details.{
  Outputs, set_output, destination, details_loop, generate_payment_details,
}

-- the amounts of the outputs, added up
unfoldable pub sum_outputs : Int64 → Outputs → Int64
sum_outputs acc [] = acc
sum_outputs acc ((k, v) ∷ m) = sum_outputs (add64 acc v) m

-- No output goes to that address.
abbrev pub Unpaid : Bytes → Outputs → Type 0
Unpaid k [] = Unit
Unpaid k ((j, v) ∷ m) = (equal j k ≡ false) × Unpaid k m

set_output-new :
    (k : Bytes) (v : Int64) (m : Outputs) → Unpaid k m → set_output k v m ≡ m ++ (k, v) ∷ []
unfolding set_output
set_output-new k v [] h = refl
set_output-new k v ((j, w) ∷ m) h = rw h.0 (ap (◌∷◌ (j, w)) (set_output-new k v m h.1))

Unpaid-append :
    (k j : Bytes) (v : Int64) (m : Outputs)
    → equal k j ≡ false
    → Unpaid j m
    → Unpaid j (m ++ (k, v) ∷ [])
Unpaid-append k j v [] ne h = (ne, tt)
Unpaid-append k j v ((i, w) ∷ m) ne h = (h.0, Unpaid-append k j v m ne h.1)

-- The address stands nowhere in the list.
abbrev pub NotAmong : Bytes → List Bytes → Type 0
NotAmong a [] = Unit
NotAmong a (b ∷ bs) = (equal a b ≡ false) × NotAmong a bs

abbrev pub AllDistinct : List Bytes → Type 0
AllDistinct [] = Unit
AllDistinct (a ∷ as') = NotAmong a as' × AllDistinct as'

-- None of the addresses has an output yet.
abbrev Fresh : List Bytes → Outputs → Type 0
Fresh [] m = Unit
Fresh (a ∷ as') m = Unpaid a m × Fresh as' m

Fresh-append :
    (k : Bytes) (v : Int64) (as' : List Bytes) (m : Outputs)
    → NotAmong k as'
    → Fresh as' m
    → Fresh as' (m ++ (k, v) ∷ [])
Fresh-append k v [] m ne h = tt
Fresh-append k v (a ∷ as') m ne h =
    (Unpaid-append k a v m ne.0 h.0, Fresh-append k v as' m ne.1 h.1)

Fresh-nil : (as' : List Bytes) → Fresh as' []
Fresh-nil [] = tt
Fresh-nil (a ∷ as') = (tt, Fresh-nil as')

-- each bundle's total to its address
abbrev pub one_each : List Bytes → List PaymentBundle → Outputs
one_each (a ∷ as') (p ∷ ps) = (a, total p) ∷ one_each as' ps
one_each _ _ = []

sum_outputs-one_each :
    (acc : Int64) (as' : List Bytes) (ps : List PaymentBundle)
    → length as' ≡ length ps
    → sum_outputs acc (one_each as' ps) ≡ sum_totals acc ps
unfolding sum_outputs sum_totals
sum_outputs-one_each acc [] [] h = refl
sum_outputs-one_each acc (a ∷ as') (p ∷ ps) h =
    sum_outputs-one_each (add64 acc (total p)) as' ps (omega arith)
sum_outputs-one_each acc [] (p ∷ ps) h = absurd (omega arith)
sum_outputs-one_each acc (a ∷ as') [] h = absurd (omega arith)

module _ {B : Bolt} (json : Json Account) (d : Db B) (pool_fee_addr : Bytes) where
  -- The bundles go to these addresses.
  abbrev pub GoTo : List PaymentBundle → List Bytes → Type 0
  GoTo [] [] = Unit
  GoTo (p ∷ ps) (a ∷ as') = (destination json d pool_fee_addr p ≡ ok a) × GoTo ps as'
  GoTo _ _ = ⊥

  GoTo-length : (ps : List PaymentBundle) (as' : List Bytes) → GoTo ps as' → length as' ≡ length ps
  GoTo-length [] [] h = refl
  GoTo-length (p ∷ ps) (a ∷ as') h = ap suc (GoTo-length ps as' h.1)
  GoTo-length [] (a ∷ as') h = absurd h
  GoTo-length (p ∷ ps) [] h = absurd h

  details_loop_lem :
      (m : Outputs) (t : Int64) (ps : List PaymentBundle) (as' : List Bytes)
      → GoTo ps as'
      → AllDistinct as'
      → Fresh as' m
      → details_loop json d pool_fee_addr m t ps ≡ ok (m ++ one_each as' ps, sum_totals t ps)
  unfolding details_loop sum_totals
  details_loop_lem m t [] [] go dist fresh = ground (arith, append-nil m)
  details_loop_lem m t (p ∷ ps) (a ∷ as') go dist fresh = ground (
    arith,
    set_output-new a (total p) m fresh.0,
    append_assoc m ((a, total p) ∷ []) (one_each as' ps),
    details_loop_lem (m ++ (a, total p) ∷ []) (add64 t (total p)) ps as' go.1 dist.1
        (Fresh-append a (total p) as' m dist.0 fresh.1),
  )
  details_loop_lem m t [] (a ∷ as') go dist fresh = absurd go
  details_loop_lem m t (p ∷ ps) [] go dist fresh = absurd go

  -- Where every bundle has an address to go to and no two go to one, the payout has one output for
  -- each bundle, of its total, and the outputs add up to the target amount.
  pub generate_payment_details_conserves :
      (ps : List PaymentBundle) (as' : List Bytes)
      → GoTo ps as'
      → AllDistinct as'
      → let outputs = one_each as' ps in
        (generate_payment_details json d pool_fee_addr ps ≡ ok (outputs, sum_totals 0 ps))
        × (sum_outputs 0 outputs ≡ sum_totals 0 ps)
  unfolding generate_payment_details
  generate_payment_details_conserves ps as' go dist = (
    details_loop_lem [] 0 ps as' go dist (Fresh-nil as'),
    sum_outputs-one_each 0 as' ps (GoTo-length ps as' go),
  )

  -- Of two bundles that go to one address only the second is paid, while the target amount counts
  -- both.
  pub generate_payment_details_overwrites :
      (p q : PaymentBundle) (a : Bytes)
      → destination json d pool_fee_addr p ≡ ok a
      → destination json d pool_fee_addr q ≡ ok a
      → generate_payment_details json d pool_fee_addr (p ∷ q ∷ [])
        ≡ ok ((a, total q) ∷ [], sum_totals 0 (p ∷ q ∷ []))
  unfolding generate_payment_details details_loop set_output sum_totals
  generate_payment_details_overwrites p q a hp hq = ground (arith, equal_refl a)
