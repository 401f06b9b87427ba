-- ===== src/Db/Rows.antt =====
-- The decoded contents of a bucket: keys with the records that their values encode.
use eacrpool.Prelude.{◌≡◌, some, List, [], ◌∷◌, ◌++◌, reverse}
use mathlib.Core.List.{reverse-append}
use eacrpool.Bytes.{Bytes}
use eacrpool.Bolt.{Above, Ascending}
use eacrpool.Json.{Json}

module _ {A : Type 0} (json : Json A) where
  abbrev pub Decodes : List (Bytes × Bytes) → List (Bytes × A) → Type 0
  Decodes [] [] = Unit
  Decodes ((k, v) ∷ l) ((j, a) ∷ rs) = (j ≡ k) × (json.unmarshal v ≡ some a) × Decodes l rs
  Decodes _ _ = ⊥

  pub Decodes-append :
      (l m : List (Bytes × Bytes)) (rs ss : List (Bytes × A))
      → Decodes l rs
      → Decodes m ss
      → Decodes (l ++ m) (rs ++ ss)
  Decodes-append [] m [] ss h k = k
  Decodes-append ((i, v) ∷ l) m ((j, a) ∷ rs) ss h k = (h.0, h.1, Decodes-append l m rs ss h.2 k)
  Decodes-append [] m (r ∷ rs) ss h k = absurd h
  Decodes-append (e ∷ l) m [] ss h k = absurd h

  pub Decodes-reverse :
      (l : List (Bytes × Bytes)) (rs : List (Bytes × A))
      → Decodes l rs
      → Decodes (reverse l) (reverse rs)
  Decodes-reverse [] [] h = tt
  Decodes-reverse ((i, v) ∷ l) ((j, a) ∷ rs) h =
      rw (reverse-append ((i, v) ∷ []) l, reverse-append ((j, a) ∷ []) rs)
        (Decodes-append (reverse l) ((i, v) ∷ []) (reverse rs) ((j, a) ∷ [])
          (Decodes-reverse l rs h.2) (h.0, h.1, tt))
  Decodes-reverse [] (r ∷ rs) h = absurd h
  Decodes-reverse (e ∷ l) [] h = absurd h

  Decodes-Above :
      (k : Bytes) (l : List (Bytes × Bytes)) (rs : List (Bytes × A))
      → Decodes l rs
      → Above k l
      → Above k rs
  Decodes-Above k [] [] h a = tt
  Decodes-Above k ((i, v) ∷ l) ((j, x) ∷ rs) h a = (rw h.0 a.0, Decodes-Above k l rs h.2 a.1)
  Decodes-Above k [] (r ∷ rs) h a = absurd h
  Decodes-Above k (e ∷ l) [] h a = absurd h

  -- The rows are in the order of the keys.
  pub Decodes-Ascending :
      (l : List (Bytes × Bytes)) (rs : List (Bytes × A)) → Decodes l rs → Ascending l → Ascending rs
  Decodes-Ascending [] [] h a = tt
  Decodes-Ascending ((i, v) ∷ l) ((j, x) ∷ rs) h a =
      (rw h.0 (Decodes-Above i l rs h.2 a.0), Decodes-Ascending l rs h.2 a.1)
  Decodes-Ascending [] (r ∷ rs) h a = absurd h
  Decodes-Ascending (e ∷ l) [] h a = absurd h
