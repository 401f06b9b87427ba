-- ===== src/Endpoint/Table.antt =====
-- Go maps with distinct keys: how many of the values pass a test, as keys are set and removed.
use eacrpool.Prelude.{ℕ, ◌+◌, ◌≡◌, refl, Bool, none, some, List, [], ◌∷◌, arith, if◌then◌else◌}
use eacrpool.Bytes.{Bytes, equal-eq}
use eacrpool.Bolt.{lookup}
use eacrpool.Map.{set_key, remove_key, lookup-set_key, lookup-remove_key}

module _ {V : Type 0} where
  -- no key stands twice
  abbrev pub Distinct : List (Bytes × V) → Type 0
  Distinct [] = Unit
  Distinct ((k, v) ∷ m) = (lookup k m ≡ none) × Distinct m

  unfoldable pub count : (V → Bool) → List (Bytes × V) → ℕ
  count test [] = 0
  count test ((k, v) ∷ m) = let rest = count test m in if test v then rest + 1 else rest

  pub Distinct-set_key :
      (k : Bytes) (v : V) (m : List (Bytes × V)) → Distinct m → Distinct (set_key k v m)
  unfolding set_key lookup
  Distinct-set_key k v [] d = (refl, tt)
  Distinct-set_key k v ((j, w) ∷ m) d =
      ground (arith, Distinct-set_key k v m, lookup-set_key j k v m, equal-eq j k, equal-eq k j)

  pub Distinct-remove_key :
      (k : Bytes) (m : List (Bytes × V)) → Distinct m → Distinct (remove_key k m)
  unfolding remove_key
  Distinct-remove_key k [] d = tt
  Distinct-remove_key k ((j, w) ∷ m) d =
      ground (arith, Distinct-remove_key k m, lookup-remove_key j k m)

  module _ (test : V → Bool) where
    -- a key that is not there yet
    pub count-set_key :
        (k : Bytes) (v : V) (m : List (Bytes × V))
        → lookup k m ≡ none
        → count test (set_key k v m) ≡ (if test v then count test m + 1 else count test m)
    unfolding set_key count lookup
    count-set_key k v [] h = refl
    count-set_key k v ((j, w) ∷ m) h = ground (arith, count-set_key k v m, equal-eq j k)

    count-remove_key-absent :
        (k : Bytes) (m : List (Bytes × V))
        → lookup k m ≡ none
        → count test (remove_key k m) ≡ count test m
    unfolding remove_key count lookup
    count-remove_key-absent k [] h = refl
    count-remove_key-absent k ((j, w) ∷ m) h = ground (arith, count-remove_key-absent k m)

    -- a key that is there
    pub count-remove_key :
        (k : Bytes) (v : V) (m : List (Bytes × V))
        → Distinct m
        → lookup k m ≡ some v
        → count test m
          ≡ (if test v then count test (remove_key k m) + 1 else count test (remove_key k m))
    unfolding remove_key count lookup
    count-remove_key k v [] d h = ground arith
    count-remove_key k v ((j, w) ∷ m) d h =
        ground (arith, count-remove_key k v m, count-remove_key-absent k m, equal-eq j k)
