-- ===== src/Db/Kept.antt =====
-- pool/db.go: entries and buckets that a pruning does not select.
use eacrpool.Prelude.{◌≡◌, false, Bool, inl, inr, some, none, List, [], ◌∷◌, arith, All}
use eacrpool.Errors.{Result, ok, result_cases}
use eacrpool.Bytes.{Bytes}
use eacrpool.Bolt.{Bolt}
use eacrpool.Db.State.{BucketName, Db, same_name, same_name_refl, update, fetch_bucket}
use eacrpool.Db.Records.{find}
use eacrpool.Db.Prune.{collect, verdict, prune_tx, prune_exact}

-- A walk that ends has a verdict on every entry.
collect-All :
    (f : Bytes × Bytes → Result Bool) (l : List (Bytes × Bytes)) (ks : List Bytes)
    → collect f l ≡ ok ks
    → All (λ e. f e ≡ ok (verdict (f e))) l
unfolding collect
collect-All f [] ks h = tt
collect-All f (e ∷ l) ks h = elim (result_cases (collect f l)) [
  | inl (ks', more) ↦ (ground arith, collect-All f l ks' more)
  | inr (inl (x, failed)) ↦ absurd (ground arith)
  | inr (inr failed) ↦ absurd (ground arith)
]

module _ {B : Bolt} (n : BucketName) (f : Bytes × Bytes → Result Bool) where
  pub fetch_bucket-prune_tx :
      (m : BucketName) (d : Db B)
      → same_name n m ≡ false
      → fetch_bucket m (update (prune_tx n f) d).1 ≡ fetch_bucket m d
  unfolding prune_tx update fetch_bucket
  fetch_bucket-prune_tx m none other = ground arith
  fetch_bucket-prune_tx m (some p) other = ground arith

  -- A pruning that succeeds has walked its bucket.
  prune_tx-walks :
      (d : Db B)
      → (update (prune_tx n f) d).0 ≡ ok tt
      → (b : B.Bucket) × (ks : List Bytes) × (fetch_bucket n d ≡ ok b)
        × (collect f (B.entries b) ≡ ok ks)
  unfolding prune_tx update
  prune_tx-walks d done = elim (result_cases (fetch_bucket n d)) [
    | inl (b, found) ↦ elim (result_cases (collect f (B.entries b))) [
      | inl (ks, walked) ↦ (b, ks, found, walked)
      | inr (inl (x, failed)) ↦ absurd (ground arith)
      | inr (inr failed) ↦ absurd (ground arith)
    ]
    | inr (inl (x, failed)) ↦ absurd (ground arith)
    | inr (inr failed) ↦ absurd (ground arith)
  ]

  pub prune_tx-keeps :
      (k v : Bytes) (d : Db B)
      → (update (prune_tx n f) d).0 ≡ ok tt
      → verdict (f (k, v)) ≡ false
      → find n k d ≡ some v
      → find n k (update (prune_tx n f) d).1 ≡ some v
  prune_tx-keeps k v d done kept there =
      let (b, ks, found, walked) = prune_tx-walks d done in
      let all = collect-All f (B.entries b) ks walked in
      let (_, finds) = prune_exact n f (λ e. verdict (f e)) d found all in
      ground (arith, finds n k, same_name_refl n)
