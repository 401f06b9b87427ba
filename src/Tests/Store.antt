-- ===== src/Tests/Store.antt =====
-- A small store of sorted pairs with the laws that the pool relies on of bbolt.
use eacrpool.Prelude.{
  ◌≡◌, refl, true, false, not, ◌==◌, none, some, List, [], ◌∷◌, arith, length, Bool-cases, inl, inr,
  if◌then◌else◌,
}
use eacrpool.Bytes.{Bytes, less, equal, equal-eq, equal_of_eq}
use eacrpool.Bytes.Order.{less_trans, less_connected}
use eacrpool.Bolt.{Bolt, lookup, Above, Ascending}

abbrev pub Pairs : Type 0
Pairs = List (Bytes × Bytes)

unfoldable pub insert : Bytes → Bytes → Pairs → Pairs
insert k v [] = (k, v) ∷ []
insert k v ((x, w) ∷ l) =
    let rest = insert k v l in
    if equal x k then (k, v) ∷ l else if less k x then (k, v) ∷ (x, w) ∷ l else (x, w) ∷ rest

unfoldable pub remove : Bytes → Pairs → Pairs
remove k [] = []
remove k ((x, w) ∷ l) = let rest = remove k l in if equal x k then rest else (x, w) ∷ rest

Above-Above : (k x : Bytes) (l : Pairs) → less k x ≡ true → Above x l → Above k l
Above-Above k x [] h a = tt
Above-Above k x ((j, v) ∷ l) h a = (less_trans k x j h a.0, Above-Above k x l h a.1)

Above-insert : (x k v : Bytes) (l : Pairs) → less x k ≡ true → Above x l → Above x (insert k v l)
unfolding insert
Above-insert x k v [] h a = (h, tt)
Above-insert x k v ((j, w) ∷ l) h a = elim (Bool-cases (equal j k)) [
  | inl same ↦ rw same (h, a.1)
  | inr other ↦ rw other (elim (Bool-cases (less k j)) [
    | inl before ↦ rw before (h, a)
    | inr after ↦ rw after (a.0, Above-insert x k v l h a.1)
  ])
]

pub insert-Ascending : (k v : Bytes) (l : Pairs) → Ascending l → Ascending (insert k v l)
unfolding insert
insert-Ascending k v [] h = (tt, tt)
insert-Ascending k v ((j, w) ∷ l) h = elim (Bool-cases (equal j k)) [
  | inl same ↦ rw same (rw (← equal-eq j k same) h.0, h.1)
  | inr other ↦ rw other (elim (Bool-cases (less k j)) [
    | inl before ↦ rw before ((before, Above-Above k j l before h.0), h)
    | inr after ↦
        rw after (Above-insert j k v l (less_after j k other after) h.0, insert-Ascending k v l h.1)
  ])
]
  where
    less_after : (j k : Bytes) → equal j k ≡ false → less k j ≡ false → less j k ≡ true
    less_after j k ne nb = ground (arith, less_connected j k)

Above-remove : (x k : Bytes) (l : Pairs) → Above x l → Above x (remove k l)
unfolding remove
Above-remove x k [] a = tt
Above-remove x k ((j, w) ∷ l) a = elim (Bool-cases (equal j k)) [
  | inl same ↦ rw same (Above-remove x k l a.1)
  | inr other ↦ rw other (a.0, Above-remove x k l a.1)
]

pub remove-Ascending : (k : Bytes) (l : Pairs) → Ascending l → Ascending (remove k l)
unfolding remove
remove-Ascending k [] h = tt
remove-Ascending k ((j, w) ∷ l) h = elim (Bool-cases (equal j k)) [
  | inl same ↦ rw same (remove-Ascending k l h.1)
  | inr other ↦ rw other (Above-remove j k l h.0, remove-Ascending k l h.1)
]

pub lookup-insert :
    (k v j : Bytes) (l : Pairs)
    → lookup j (insert k v l) ≡ (if equal k j then some v else lookup j l)
unfolding lookup insert
lookup-insert k v j [] = refl
lookup-insert k v j ((x, w) ∷ l) =
    ground (arith, lookup-insert k v j l, equal-eq x k, equal-eq x j, equal-eq k j)

pub lookup-remove :
    (k j : Bytes) (l : Pairs) → lookup j (remove k l) ≡ (if equal k j then none else lookup j l)
unfolding lookup remove
lookup-remove k j [] = ground arith
lookup-remove k j ((x, w) ∷ l) =
    ground (arith, lookup-remove k j l, equal-eq x k, equal-eq x j, equal-eq k j, equal_of_eq x k)

abbrev pub store : Bolt
store = record {
  Bucket = (l : Pairs) × Ascending l;
  entries = λ b. b.0;
  empty = ([], tt);
  fits = λ k v. not (length k == 0);
  store = λ b k v. (insert k v b.0, insert-Ascending k v b.0 b.1);
  delete = λ b k. (remove k b.0, remove-Ascending k b.0 b.1);
  entries-empty = refl;
  entries-Ascending = λ b. b.1;
  lookup-store = λ b k v j. lookup-insert k v j b.0;
  lookup-delete = λ b k j. lookup-remove k j b.0;
}
