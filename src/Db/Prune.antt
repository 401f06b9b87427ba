-- ===== src/Db/Prune.antt =====
-- The transaction that PruneJobs, PruneAcceptedWork and pruneShares share: walk a bucket with a
-- cursor, note the keys to delete, and delete them.
use eacrpool.Prelude.{
  ◌≡◌, refl, Bool, true, false, ◌||◌, Option, none, some, List, [], ◌∷◌, map, arith, All, filter,
  if◌then◌else◌,
}
use eacrpool.Errors.{Result, ok, err, panic}
use eacrpool.Bytes.{Bytes, equal, equal_refl, equal-eq}
use eacrpool.Bytes.Order.{less_irrefl}
use eacrpool.Bolt.{Bolt, lookup, Above, Ascending}
use eacrpool.Db.State.{
  BucketName, Db, Tx, same_name, same_name-eq, same_name_refl, update, fetch_bucket, write,
  delete_all,
}
use eacrpool.Db.Records.{find}

-- The keys of the entries that the test selects, or what the test fails with.
unfoldable pub collect : (Bytes × Bytes → Result Bool) → List (Bytes × Bytes) → Result (List Bytes)
collect f [] = ok []
collect f (e ∷ l) =
    let rest = collect f l in
    elim (f e) [
      | err x ↦ err x
      | panic ↦ panic
      | ok chosen ↦ elim rest [
        | err x ↦ err x
        | panic ↦ panic
        | ok ks ↦ ok (if chosen then e.0 ∷ ks else ks)
      ]
    ]

pub keys : List (Bytes × Bytes) → List Bytes
keys = map (λ e. e.0)

-- what a test answers, where it does not fail
abbrev pub verdict : Result Bool → Bool
verdict (ok b) = b
verdict _ = false

pub collect-filter :
    (f : Bytes × Bytes → Result Bool) (g : Bytes × Bytes → Bool) (l : List (Bytes × Bytes))
    → All (λ e. f e ≡ ok (g e)) l
    → collect f l ≡ ok (keys (filter g l))
unfolding collect keys
collect-filter f g [] h = refl
collect-filter f g (e ∷ l) h = ground (arith, collect-filter f g l h.1)

unfoldable pub member : Bytes → List Bytes → Bool
member j [] = false
member j (k ∷ ks) = equal k j || member j ks

-- A key is among those of a filtered walk exactly if its own entry passes the test.
member-Above :
    (g : Bytes × Bytes → Bool) (j k : Bytes) (l : List (Bytes × Bytes))
    → Above k l
    → equal k j ≡ true
    → member j (keys (filter g l)) ≡ false
unfolding member keys
member-Above g j k [] h e = refl
member-Above g j k ((i, v) ∷ l) h e =
    ground (arith, member-Above g j k l h.1 e, equal-eq k j e, equal-eq i j, less_irrefl j)

pub lookup-Above :
    (j k : Bytes) (l : List (Bytes × Bytes)) → Above k l → equal k j ≡ true → lookup j l ≡ none
unfolding lookup
lookup-Above j k [] h e = refl
lookup-Above j k ((i, v) ∷ l) h e =
    ground (arith, lookup-Above j k l h.1 e, equal-eq k j e, equal-eq i j, less_irrefl j)

-- what is left of a value under a key
abbrev pub unless : (Bytes × Bytes → Bool) → Bytes → Option Bytes → Option Bytes
unless g j none = none
unless g j (some v) = if g (j, v) then none else some v

pub lookup-unless :
    (g : Bytes × Bytes → Bool) (j : Bytes) (l : List (Bytes × Bytes))
    → Ascending l
    → (if member j (keys (filter g l)) then none else lookup j l) ≡ unless g j (lookup j l)
unfolding member keys lookup
lookup-unless g j [] h = refl
lookup-unless g j ((i, v) ∷ l) h =
    ground (arith, lookup-unless g j l h.1, member-Above g j i l h.0, equal-eq i j, equal_refl j)

module _ (B : Bolt) where
  pub lookup-delete_all :
      (b : B.Bucket) (ks : List Bytes) (j : Bytes)
      → lookup j (B.entries (delete_all B b ks))
        ≡ (if member j ks then none else lookup j (B.entries b))
  unfolding delete_all member
  lookup-delete_all b [] j = refl
  lookup-delete_all b (k ∷ ks) j =
      ground (arith, lookup-delete_all (B.delete b k) ks j, B.lookup-delete b k j)

module _ {B : Bolt} (n : BucketName) (f : Bytes × Bytes → Result Bool) where
  unfoldable pub prune_tx : Tx B (Unit {0})
  unfolding fetch_bucket
  prune_tx d = elim (fetch_bucket n d) [
    | err e ↦ err e
    | panic ↦ panic
    | ok b ↦ elim (collect f (B.entries b)) [
      | ok ks ↦ write n (delete_all B b ks) d
      | err e ↦ err e
      | panic ↦ panic
    ]
  ]

  -- Where the test passes judgement on every entry, pruning succeeds, deletes exactly what the test
  -- selects, and leaves the other buckets alone.
  pub prune_exact :
      (g : Bytes × Bytes → Bool) {b : B.Bucket} (d : Db B)
      → fetch_bucket n d ≡ ok b
      → All (λ e. f e ≡ ok (g e)) (B.entries b)
      → ((update prune_tx d).0 ≡ ok tt)
        × ((m : BucketName) (j : Bytes)
            → find m j (update prune_tx d).1
              ≡ (if same_name n m then unless g j (find m j d) else find m j d))
  unfolding prune_tx update
  prune_exact g none h a = ground arith
  prune_exact g {b} (some p) h a = (
    ground (arith, collect-filter f g (B.entries b) a),
    λ m j. ground (
      arith,
      collect-filter f g (B.entries b) a,
      lookup-delete_all B b (keys (filter g (B.entries b))) j,
      lookup-unless g j (B.entries b) (B.entries-Ascending b),
      same_name-eq n m,
      same_name_refl n,
    ),
  )
