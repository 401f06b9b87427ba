-- ===== src/Map.antt =====
-- Go maps from strings, as lists of pairs: `m[k] = v` sets an entry in place or adds it, and
-- `delete(m, k)` takes it out.
use eacrpool.Prelude.{◌≡◌, arith, none, some, List, [], ◌∷◌, if◌then◌else◌}
use eacrpool.Bytes.{Bytes, equal, equal_refl, equal-eq}
use eacrpool.Bolt.{lookup}

module _ {V : Type 0} where
  unfoldable pub set_key : Bytes → V → List (Bytes × V) → List (Bytes × V)
  set_key k v [] = (k, v) ∷ []
  set_key k v ((j, w) ∷ rest) = if equal j k then (k, v) ∷ rest else (j, w) ∷ set_key k v rest

  unfoldable pub remove_key : Bytes → List (Bytes × V) → List (Bytes × V)
  remove_key k [] = []
  remove_key k ((j, w) ∷ rest) =
      let others = remove_key k rest in if equal j k then others else (j, w) ∷ others

  pub lookup-set_key :
      (j k : Bytes) (v : V) (m : List (Bytes × V))
      → lookup j (set_key k v m) ≡ (if equal k j then some v else lookup j m)
  unfolding set_key lookup
  lookup-set_key j k v [] = ground arith
  lookup-set_key j k v ((i, w) ∷ m) =
      ground (arith, lookup-set_key j k v m, equal-eq i k, equal-eq i j, equal-eq k j, equal_refl j)

  pub lookup-remove_key :
      (j k : Bytes) (m : List (Bytes × V))
      → lookup j (remove_key k m) ≡ (if equal k j then none else lookup j m)
  unfolding remove_key lookup
  lookup-remove_key j k [] = ground arith
  lookup-remove_key j k ((i, w) ∷ m) = ground (
    arith,
    lookup-remove_key j k m,
    equal-eq i k,
    equal-eq i j,
    equal-eq k j,
    equal_refl j,
    equal_refl k,
  )
