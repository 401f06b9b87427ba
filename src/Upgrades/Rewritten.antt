-- ===== src/Upgrades/Rewritten.antt =====
-- pool/upgrades.go: a bucket whose values are encoded again.
use eacrpool.Prelude.{
  ◌≡◌, refl, inl, inr, true, Option, none, some, List, [], ◌∷◌, arith, Bool-cases, Option-cases,
  ◌∙◌,
}
use eacrpool.Errors.{ok, err, make_error, value_not_found}
use eacrpool.Bytes.{Bytes, equal}
use eacrpool.Bolt.{Bolt, lookup, Above, Ascending}
use eacrpool.Json.{Json}
use eacrpool.Payment.{Payment}
use eacrpool.Db.{put}
use eacrpool.Db.Records.{decoded}
use eacrpool.Db.Prune.{lookup-Above}
use eacrpool.Upgrades.{rewrite_loop}

-- a value's new encoding
unfoldable pub reencoded : Json Payment → Bytes → Option Bytes
reencoded json v = elim (json.unmarshal v) [
  | none ↦ none
  | some payment ↦ some (json.marshal payment)
]

module _ (B : Bolt) (json : Json Payment) where
  -- each value is a payment, whose new encoding Bolt takes
  abbrev pub Readable : List (Bytes × Bytes) → Type 0
  Readable [] = Unit
  Readable ((k, v) ∷ l) =
      ((payment : Payment) × (json.unmarshal v ≡ some payment)
        × (B.fits k (json.marshal payment) ≡ true))
      × Readable l

  -- What a key holds after the loop over `l`.
  abbrev pub held : List (Bytes × Bytes) → B.Bucket → Bytes → Option Bytes
  held l b j = elim (lookup j l) [ none ↦ lookup j (B.entries b) | some v ↦ reencoded json v ]

  held-cons :
      (k v : Bytes) (l : List (Bytes × Bytes)) (b : B.Bucket) (payment : Payment) (j : Bytes)
      → Above k l
      → json.unmarshal v ≡ some payment
      → held l (B.store b k (json.marshal payment)) j ≡ held ((k, v) ∷ l) b j
  unfolding lookup reencoded
  held-cons k v l b payment j above decoded = elim (Bool-cases (equal k j)) [
    | inl same ↦ ground (
      arith,
      same,
      decoded,
      B.lookup-store b k (json.marshal payment) j,
      lookup-Above j k l above same,
    )
    | inr other ↦ ground (arith, other, B.lookup-store b k (json.marshal payment) j)
  ]

  pub rewrite_loop-lem :
      (l : List (Bytes × Bytes)) (b : B.Bucket)
      → Ascending l
      → Readable l
      → (b' : B.Bucket) × (rewrite_loop B json l b ≡ ok b')
        × ((j : Bytes) → lookup j (B.entries b') ≡ held l b j)
  unfolding rewrite_loop put lookup
  rewrite_loop-lem [] b asc readable = (b, refl, λ j. refl)
  rewrite_loop-lem ((k, v) ∷ l) b asc ((payment, decoded, fits), readable) =
      let b1 = B.store b k (json.marshal payment) in
      let (b', done, found) = rewrite_loop-lem l b1 asc.1 readable in
      (
        b',
        ground (arith, decoded, fits, done),
        λ j. found j ∙ held-cons k v l b payment j asc.0 decoded,
      )

  Readable-lookup :
      (j v : Bytes) (l : List (Bytes × Bytes))
      → Readable l
      → lookup j l ≡ some v
      → (payment : Payment) × (json.unmarshal v ≡ some payment)
  unfolding lookup
  Readable-lookup j v [] r h = absurd (ground (arith, h))
  Readable-lookup j v ((k, w) ∷ l) ((payment, decoded, fits), r) h = elim (Bool-cases (equal k j)) [
    | inl same ↦ (payment, ground (arith, same, h, decoded))
    | inr other ↦ Readable-lookup j v l r (ground (arith, other, h))
  ]

  -- A key of a rewritten bucket holds a payment where it held one, and the same.
  pub fetched_again :
      (b b' : B.Bucket) (j : Bytes)
      → Readable (B.entries b)
      → lookup j (B.entries b') ≡ held (B.entries b) b j
      → (elim (lookup j (B.entries b')) [
        | none ↦ err (make_error value_not_found)
        | some v ↦ decoded json v
      ])
        ≡ (elim (lookup j (B.entries b)) [
          | none ↦ err (make_error value_not_found)
          | some v ↦ decoded json v
        ])
  unfolding reencoded decoded
  fetched_again b b' j readable found = elim (Option-cases (lookup j (B.entries b))) [
    | inl new ↦ ground (arith, found, new)
    | inr (v, old) ↦
        let (payment, reads) = Readable-lookup j v (B.entries b) readable old in
        ground (arith, found, old, reads, json.unmarshal-marshal payment)
  ]
