-- ===== src/Work/Listing.antt =====
-- pool/acceptedwork.go, ListMinedWork and listMinedWorkByAccount.
use eacrpool.Prelude.{
  ℕ, zero, suc, ◌+◌, ◌≡◌, refl, Bool, ◌&&◌, Option, none, some, List, [], ◌∷◌, ◌++◌, arith, length,
  length-append, take, filter, reverse, Bool-cases, Option-cases, inl, inr,
}
use mathlib.Core.List.{append_assoc, append-nil}
use eacrpool.Errors.{ok}
use eacrpool.Bytes.{Bytes, equal}
use eacrpool.Bolt.{Bolt}
use eacrpool.Json.{Json}
use eacrpool.Db.{Db, work_bkt, fetch_bucket}
use eacrpool.Db.Records.{decoded}
use eacrpool.Work.{AcceptedWork, list_loop, list_work, list_mined_work, list_mined_work_by_account}

module _ (json : Json AcceptedWork) where
  -- The records of a walk, if all of them decode.
  abbrev pub decode_all : List (Bytes × Bytes) → Option (List AcceptedWork)
  decode_all [] = some []
  decode_all ((k, v) ∷ l) = elim (json.unmarshal v) [
    | none ↦ none
    | some w ↦ elim (decode_all l) [ none ↦ none | some ws ↦ some (w ∷ ws) ]
  ]

  decode_all-cons :
      (k v : Bytes) (l : List (Bytes × Bytes)) (ws : List AcceptedWork)
      → decode_all ((k, v) ∷ l) ≡ some ws
      → (w : AcceptedWork) × (ws' : List AcceptedWork) × (json.unmarshal v ≡ some w)
        × (decode_all l ≡ some ws')
        × (ws ≡ w ∷ ws')
  decode_all-cons k v l ws h = elim (Option-cases (json.unmarshal v)) [
    | inl bad ↦ absurd (ground arith)
    | inr (w, good) ↦ elim (Option-cases (decode_all l)) [
      | inl bad ↦ absurd (ground arith)
      | inr (ws', more) ↦ (w, ws', good, more, ground arith)
    ]
  ]

  list_loop_lem :
      (wanted : AcceptedWork → Bool) (n r : ℕ) (taken ws : List AcceptedWork)
      (l : List (Bytes × Bytes))
      → n ≡ length taken + suc r
      → decode_all l ≡ some ws
      → list_loop json wanted n taken l ≡ ok (taken ++ take (suc r) (filter wanted ws))
  unfolding list_loop decoded
  list_loop_lem wanted n r taken ws [] e h = ground (arith, append-nil taken)
  list_loop_lem wanted n zero taken ws ((k, v) ∷ l) e h =
      let (w, ws', unm, dec, split) = decode_all-cons k v l ws h in
      elim (Bool-cases (wanted w)) [
        | inl keep ↦ rw split (ground (arith, length-append taken (w ∷ [])))
        | inr skip ↦ rw split (ground (arith, list_loop_lem wanted n zero taken ws' l e dec))
      ]
  list_loop_lem wanted n (suc r) taken ws ((k, v) ∷ l) e h =
      let (w, ws', unm, dec, split) = decode_all-cons k v l ws h in
      elim (Bool-cases (wanted w)) [
        | inl keep ↦ rw split (
            ground (
              arith,
              length-append taken (w ∷ []),
              append_assoc taken (w ∷ []) (take (suc r) (filter wanted ws')),
              list_loop_lem wanted n r (taken ++ w ∷ []) ws' l,
            ))
        | inr skip ↦ rw split (ground (arith, list_loop_lem wanted n (suc r) taken ws' l e dec))
      ]

  list_work_lem :
      {B : Bolt} (n : ℕ) (d : Db B) {b : B.Bucket} (ws : List AcceptedWork)
      (wanted : AcceptedWork → Bool)
      → fetch_bucket work_bkt d ≡ ok b
      → decode_all (reverse (B.entries b)) ≡ some ws
      → list_work json wanted n d ≡ ok (take n (filter wanted ws))
  unfolding list_work
  list_work_lem zero d ws wanted found all = refl
  list_work_lem {B} (suc n) d {b} ws wanted found all =
      ground (arith, list_loop_lem wanted (suc n) n [] ws (reverse (B.entries b)) (omega arith) all)

  module _ {B : Bolt} (n : ℕ) (d : Db B) {b : B.Bucket} (ws : List AcceptedWork) where
    -- Where all stored work decodes, to `ws` from the greatest key to the least, ListMinedWork returns
    -- the first `n` confirmed records of it, and listMinedWorkByAccount the first `n` confirmed ones
    -- that the account mined.
    pub list_mined_work_recent :
        (account_id : Bytes)
        → fetch_bucket work_bkt d ≡ ok b
        → decode_all (reverse (B.entries b)) ≡ some ws
        → (list_mined_work json n d ≡ ok (take n (filter (λ w. w.confirmed) ws)))
          × (list_mined_work_by_account json account_id n d
              ≡ ok (take n (filter (λ w. equal w.mined_by account_id && w.confirmed) ws)))
    unfolding list_mined_work list_mined_work_by_account
    list_mined_work_recent account_id found all = (
      list_work_lem n d ws (λ w. w.confirmed) found all,
      list_work_lem n d ws (λ w. equal w.mined_by account_id && w.confirmed) found all,
    )
