-- ===== src/Bolt.antt =====
-- github.com/coreos/bbolt, which the pool stores its data in: what the pool relies on of a bucket.
use eacrpool.Prelude.{◌≡◌, Bool, true, Option, none, some, List, [], ◌∷◌, if◌then◌else◌}
use eacrpool.Bytes.{Bytes, equal, less}

-- The value under a key.
module _ {ℓ} {V : Type ℓ} where
  unfoldable pub lookup : Bytes → List (Bytes × V) → Option V
  lookup k [] = none
  lookup k ((j, v) ∷ l) = if equal j k then some v else lookup k l

  -- Every later key is greater.
  abbrev pub Above : Bytes → List (Bytes × V) → Type 0
  Above k [] = Unit
  Above k ((j, v) ∷ l) = (less k j ≡ true) × Above k l

  abbrev pub Ascending : List (Bytes × V) → Type 0
  Ascending [] = Unit
  Ascending ((j, v) ∷ l) = Above j l × Ascending l

pub record Bolt : Type 1 where
  -- a bucket in a writable transaction
  pub Bucket : Type 0
  -- the pairs in the order of a cursor: First, then Next until the key is nil
  pub entries : Bucket → List (Bytes × Bytes)
  -- a bucket that was just created
  pub empty : Bucket
  -- whether Put takes the pair: the key is not empty, and neither is too large
  pub fits : Bytes → Bytes → Bool
  -- Put of a pair that fits
  pub store : Bucket → Bytes → Bytes → Bucket
  pub delete : Bucket → Bytes → Bucket
  pub entries-empty : entries empty ≡ []
  -- "Cursors iterate in byte-sorted order"
  pub entries-Ascending : (b : Bucket) → Ascending (entries b)
  pub lookup-store :
      (b : Bucket) (k v j : Bytes)
      → lookup j (entries (store b k v)) ≡ (if equal k j then some v else lookup j (entries b))
  -- "If the key does not exist then nothing is done"
  pub lookup-delete :
      (b : Bucket) (k j : Bytes)
      → lookup j (entries (delete b k)) ≡ (if equal k j then none else lookup j (entries b))
