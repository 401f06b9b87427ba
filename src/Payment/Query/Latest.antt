-- ===== src/Payment/Query/Latest.antt =====
-- pool/payment.go, fetchPaymentsForAccount and its two parts.
use eacrpool.Prelude.{
  ℕ, zero, suc, ◌+◌, ◌-◌, ◌≤◌, ◌≡◌, refl, Bool, true, List, [], ◌∷◌, ◌++◌, arith, length,
  length-append, drop, take, ltb, some, ◌==◌, reverse, if◌then◌else◌,
}
use mathlib.Core.List.{append_assoc, append-nil}
use eacrpool.Errors.{ok}
use eacrpool.Bytes.{Bytes, equal}
use eacrpool.Bolt.{Bolt}
use eacrpool.Json.{Json}
use eacrpool.Db.{BucketName, Db, payment_bkt, payment_archive_bkt, fetch_bucket}
use eacrpool.Db.Records.{decoded}
use eacrpool.Payment.{Payment}
use eacrpool.Payment.Query.{
  account_loop, latest_of, fetch_archived_payments_for_account, fetch_pending_payments_for_account,
  fetch_payments_for_account,
}

abbrev pub Row : Type 0
Row = Bytes × Payment

-- the payments of an account that are wanted, in the order of the walk
abbrev pub of_account : (Payment → Bool) → Bytes → List Row → List Payment
of_account wanted id [] = []
of_account wanted id ((k, p) ∷ rs) =
    let rest = of_account wanted id rs in
    if equal (drop 16 k) id then (if wanted p then p ∷ rest else rest) else rest

-- taking past a list is to take all of it, and the rest from the next
take_append :
    {A : Type 0} (n : ℕ) (xs ys : List A)
    → take n (xs ++ ys) ≡ (
        if ltb (length (take n xs)) n
        then take n xs ++ take (n - length (take n xs)) ys
        else take n xs)
take_append zero xs ys = refl
take_append (suc n) [] ys = ground arith
take_append (suc n) (x ∷ xs) ys = ground (arith, take_append n xs ys)

module _ (json : Json Payment) where
  -- Every key of a walk has the sixteen characters of a time, and every value decodes: these rows.
  abbrev pub HasRows : List (Bytes × Bytes) → List Row → Type 0
  HasRows [] [] = Unit
  HasRows ((k, v) ∷ l) ((j, p) ∷ rs) =
      (j ≡ k) × (16 ≤ length k) × (json.unmarshal v ≡ some p) × HasRows l rs
  HasRows _ _ = ⊥

  account_loop_lem :
      (wanted : Payment → Bool) (id : Bytes) (n r : ℕ) (pmts : List Payment)
      (l : List (Bytes × Bytes)) (rs : List Row)
      → n ≡ length pmts + suc r
      → HasRows l rs
      → account_loop json wanted id n pmts l ≡ ok (pmts ++ take (suc r) (of_account wanted id rs))
  unfolding account_loop decoded
  account_loop_lem wanted id n r pmts [] [] e h = ground (arith, append-nil pmts)
  account_loop_lem wanted id n zero pmts ((k, v) ∷ l) ((j, p) ∷ rs) e h = rw h.0 (
      ground
        (arith, length-append pmts (p ∷ []), account_loop_lem wanted id n zero pmts l rs e h.3))
  account_loop_lem wanted id n (suc r) pmts ((k, v) ∷ l) ((j, p) ∷ rs) e h = rw h.0 (
      ground (
        arith,
        length-append pmts (p ∷ []),
        append_assoc pmts (p ∷ []) (take (suc r) (of_account wanted id rs)),
        account_loop_lem wanted id n r (pmts ++ p ∷ []) l rs,
        account_loop_lem wanted id n (suc r) pmts l rs e h.3,
      ))
  account_loop_lem wanted id n r pmts [] (x ∷ rs) e h = absurd h
  account_loop_lem wanted id n r pmts (x ∷ l) [] e h = absurd h

  latest_of_lem :
      {B : Bolt} (bkt : BucketName) (wanted : Payment → Bool) (id : Bytes) (n : ℕ) (d : Db B)
      {b : B.Bucket} (rs : List Row)
      → fetch_bucket bkt d ≡ ok b
      → HasRows (reverse (B.entries b)) rs
      → latest_of json bkt wanted id n d ≡ ok (take n (of_account wanted id rs))
  unfolding latest_of
  latest_of_lem bkt wanted id zero d rs found rows = refl
  latest_of_lem {B} bkt wanted id (suc n) d {b} rs found rows =
      ground (
        arith,
        account_loop_lem wanted id (suc n) n [] (reverse (B.entries b)) rs (omega arith) rows,
      )

  -- Where the payment and archive buckets hold these rows, from the greatest key to the least,
  -- fetchPaymentsForAccount returns the first `n` of the account's unpaid payments followed by its
  -- archived ones.
  pub fetch_payments_for_account_latest :
      {B : Bolt} (id : Bytes) (n : ℕ) (d : Db B) {b a : B.Bucket} (rs as' : List Row)
      → fetch_bucket payment_bkt d ≡ ok b
      → fetch_bucket payment_archive_bkt d ≡ ok a
      → HasRows (reverse (B.entries b)) rs
      → HasRows (reverse (B.entries a)) as'
      → fetch_payments_for_account json id n d
        ≡ ok (
            take n (of_account (λ p. p.paid_on_height == 0) id rs ++ of_account (λ p. true) id as'))
  unfolding fetch_payments_for_account fetch_pending_payments_for_account
      fetch_archived_payments_for_account
  fetch_payments_for_account_latest id n d rs as' fb fa hb ha =
      let pending = of_account (λ p. p.paid_on_height == 0) id rs in
      let archived = of_account (λ p. true) id as' in
      ground (
        arith,
        latest_of_lem payment_bkt (λ p. p.paid_on_height == 0) id n d rs fb hb,
        latest_of_lem payment_archive_bkt (λ p. true) id (n - length (take n pending)) d as' fa ha,
        take_append n pending archived,
      )
