-- ===== src/Payment/Archive/Moves.antt =====
-- pool/payment.go, ArchivePayments: the two buckets.
use eacrpool.Prelude.{
  ℕ, suc, ◌≡◌, refl, ap, ◌∙◌, true, Option, none, some, List, [], ◌∷◌, map, arith, All,
  if◌then◌else◌,
}
use eacrpool.Errors.{ok}
use eacrpool.Bytes.{Bytes, equal}
use eacrpool.Bolt.{Bolt, lookup}
use eacrpool.Json.{Json}
use eacrpool.Db.{
  BucketName, Db, payment_bkt, payment_archive_bkt, same_name, same_name-eq, fetch_bucket, update,
  delete_all,
}
use eacrpool.Db.Records.{find}
use eacrpool.Db.Prune.{member, lookup-delete_all}
use eacrpool.Payment.{Payment, payment_id}
use eacrpool.Payment.Bundle.{PaymentBundle}
use eacrpool.Payment.Archive.{archived_at, archive_loop, archive_payments}

-- the payments as they are archived from the `i`-th round on
abbrev pub archived : (ℕ → ℕ) → ℕ → List Payment → List Payment
archived clock i [] = []
archived clock i (p ∷ ps) = archived_at (clock i) p ∷ archived clock (suc i) ps

-- the last of the payments with that id, as it is stored
abbrev pub last_with : Json Payment → Bytes → List Payment → Option Bytes → Option Bytes
last_with json j [] o = o
last_with json j (p ∷ ps) o =
    last_with json j ps (if equal (payment_id p) j then some (json.marshal p) else o)

module _ (B : Bolt) (json : Json Payment) where
  -- Bolt takes each of the archived payments.
  abbrev pub AllFit : List Payment → Type 0
  AllFit = All (λ p. B.fits (payment_id p) (json.marshal p) ≡ true)

  store_all : B.Bucket → List Payment → B.Bucket
  store_all b [] = b
  store_all b (p ∷ ps) = store_all (B.store b (payment_id p) (json.marshal p)) ps

  archive_loop_lem :
      (clock : ℕ → ℕ) (i : ℕ) (ps : List Payment) (pb ab : B.Bucket)
      → AllFit (archived clock i ps)
      → archive_loop B json clock i ps pb ab
        ≡ ok (delete_all B pb (map payment_id ps), store_all ab (archived clock i ps))
  unfolding archive_loop delete_all store_all
  archive_loop_lem clock i [] pb ab h = refl
  archive_loop_lem clock i (p ∷ ps) pb ab h =
      let p' = archived_at (clock i) p in
      let ab' = B.store ab (payment_id p') (json.marshal p') in
      ground (arith, archive_loop_lem clock (suc i) ps (B.delete pb (payment_id p)) ab' h.1)

  lookup-store_all :
      (j : Bytes) (b : B.Bucket) (ps : List Payment)
      → lookup j (B.entries (store_all b ps)) ≡ last_with json j ps (lookup j (B.entries b))
  unfolding store_all
  lookup-store_all j b [] = refl
  lookup-store_all j b (p ∷ ps) =
      lookup-store_all j (B.store b (payment_id p) (json.marshal p)) ps
      ∙ ap (last_with json j ps) (B.lookup-store b (payment_id p) (json.marshal p) j)

module _ {B : Bolt} (json : Json Payment) (clock : ℕ → ℕ) where
  -- Where both buckets are there and Bolt takes the archived payments, the ids of the bundle's payments
  -- are gone from the payment bucket; an id of the archive holds the last payment that was archived
  -- under it, or what it held before; no other key of any bucket changes.
  pub archive_payments_moves :
      (bundle : PaymentBundle) (d : Db B) {pb ab : B.Bucket}
      → fetch_bucket payment_bkt d ≡ ok pb
      → fetch_bucket payment_archive_bkt d ≡ ok ab
      → AllFit B json (archived clock 0 bundle.payments)
      → let (r, d') = archive_payments json clock bundle d in
        (r ≡ ok tt)
        × ((m : BucketName) (j : Bytes)
            → find m j d' ≡ (
                if same_name payment_bkt m
                then (if member j (map payment_id bundle.payments) then none else find m j d)
                else if same_name payment_archive_bkt m
                then last_with json j (archived clock 0 bundle.payments) (find m j d)
                else find m j d))
  unfolding archive_payments update fetch_bucket
  archive_payments_moves bundle none fp fa fit = ground arith
  archive_payments_moves bundle (some p) {pb} {ab} fp fa fit = (
    ground (arith, archive_loop_lem B json clock 0 bundle.payments pb ab fit),
    λ m j. ground (
      arith,
      archive_loop_lem B json clock 0 bundle.payments pb ab fit,
      lookup-delete_all B pb (map payment_id bundle.payments) j,
      lookup-store_all B json j ab (archived clock 0 bundle.payments),
      same_name-eq payment_bkt m,
      same_name-eq payment_archive_bkt m,
    ),
  )
