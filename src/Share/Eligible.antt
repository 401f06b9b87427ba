-- ===== src/Share/Eligible.antt =====
-- pool/share.go, PPSEligibleShares and PPLNSEligibleShares: the shares that the schemes count.
use eacrpool.Prelude.{
  ◌≡◌, refl, sym, ap, ◌∙◌, Bool, true, false, not, ◌&&◌, none, some, List, [], ◌∷◌, ◌++◌, map,
  reverse, arith, filter, if◌then◌else◌, Bool-cases, inl, inr,
}
use mathlib.Core.List.{append_assoc, append-nil, reverse-cons}
use eacrpool.Errors.{ok}
use eacrpool.Bytes.{Bytes, less}
use eacrpool.Bytes.Order.{less_trans}
use eacrpool.Bolt.{Bolt, Above, Ascending}
use eacrpool.Json.{Json}
use eacrpool.Db.{Db, share_bkt, fetch_bucket}
use eacrpool.Db.Records.{decoded}
use eacrpool.Db.Rows.{Decodes, Decodes-reverse, Decodes-Ascending}
use eacrpool.Share.{Share, seek, share_loop, pps_eligible_shares, pplns_eligible_shares}

abbrev pub Row : Type 0
Row = Bytes × Share

abbrev pub shares_of : List Row → List Share
shares_of = map (λ r. r.1)

-- the rows before the first that fails the test
abbrev while : (Bytes → Bool) → List Row → List Row
while t [] = []
while t (r ∷ rs) = let rest = while t rs in if t r.0 then r ∷ rest else []

abbrev seek_rows : Bytes → List Row → List Row
seek_rows m [] = []
seek_rows m (r ∷ rs) = if less r.0 m then seek_rows m rs else r ∷ rs

abbrev within : Bytes → Bytes → Bytes → Bool
within min max k = not (less k min) && not (less max k)

module _ (json : Json Share) where
  share_loop_lem :
      (t : Bytes → Bool) (acc : List Share) (l : List (Bytes × Bytes)) (rs : List Row)
      → Decodes json l rs
      → share_loop json t acc l ≡ ok (acc ++ shares_of (while t rs))
  unfolding share_loop decoded
  share_loop_lem t acc [] [] h = ap ok (sym (append-nil acc))
  share_loop_lem t acc ((k, v) ∷ l) ((j, s) ∷ rs) h = rw h.0 (
      ground (
        arith,
        share_loop_lem t (acc ++ s ∷ []) l rs h.2,
        append_assoc acc (s ∷ []) (shares_of (while t rs)),
        append-nil acc,
      ))
  share_loop_lem t acc [] (r ∷ rs) h = absurd h
  share_loop_lem t acc (e ∷ l) [] h = absurd h

  seek-Decodes :
      (m : Bytes) (l : List (Bytes × Bytes)) (rs : List Row)
      → Decodes json l rs
      → Decodes json (seek m l) (seek_rows m rs)
  unfolding seek
  seek-Decodes m [] [] h = tt
  seek-Decodes m ((k, v) ∷ l) ((j, s) ∷ rs) h = elim (Bool-cases (less k m)) [
    | inl low ↦ rw (h.0, low) (seek-Decodes m l rs h.2)
    | inr high ↦ rw (h.0, high) (refl, h.1, h.2)
  ]
  seek-Decodes m [] (r ∷ rs) h = absurd h
  seek-Decodes m (e ∷ l) [] h = absurd h

none_within :
    (min max k : Bytes) (rs : List Row)
    → Above k rs
    → less max k ≡ true
    → filter (λ r. within min max r.0) rs ≡ []
none_within min max k [] a h = refl
none_within min max k (r ∷ rs) a h =
    ground (arith, none_within min max k rs a.1 h, less_trans max k r.0)

not_below : (min k j : Bytes) → less k j ≡ true → less k min ≡ false → less j min ≡ false
not_below min k j a h = elim (Bool-cases (less j min)) [
  | inl low ↦ absurd (ground (arith, less_trans k j min a low))
  | inr e ↦ e
]

-- From a key that is not below `min`, none is.
while-within :
    (min max : Bytes) (k : Bytes) (rs : List Row)
    → Ascending rs
    → Above k rs
    → less k min ≡ false
    → while (λ j. not (less max j)) rs ≡ filter (λ r. within min max r.0) rs
while-within min max k [] asc a h = refl
while-within min max k (r ∷ rs) asc a h = ground (
  arith,
  not_below min k r.0 a.0 h,
  while-within min max r.0 rs asc.1 asc.0,
  none_within min max r.0 rs asc.0,
)

while-seek :
    (min max : Bytes) (rs : List Row)
    → Ascending rs
    → while (λ j. not (less max j)) (seek_rows min rs) ≡ filter (λ r. within min max r.0) rs
while-seek min max [] asc = refl
while-seek min max (r ∷ rs) asc = ground (
  arith,
  while-seek min max rs asc.1,
  while-within min max r.0 rs asc.1 asc.0,
  none_within min max r.0 rs asc.0,
)

while_all : (rs : List Row) → while (λ k. true) rs ≡ rs
while_all [] = refl
while_all (r ∷ rs) = ap (◌∷◌ r) (while_all rs)

-- A row behind the others ends the walk, or goes on it if all the others do.
while-snoc :
    (t : Bytes → Bool) (rs : List Row) (r : Row)
    → t r.0 ≡ false
    → while t (rs ++ r ∷ []) ≡ while t rs
while-snoc t [] r h = rw h
while-snoc t (q ∷ rs) r h = ground (arith, while-snoc t rs r h)

while-snoc_all :
    (t : Bytes → Bool) (rs : List Row) (r : Row)
    → t r.0 ≡ true
    → while t rs ≡ rs
    → while t (rs ++ r ∷ []) ≡ rs ++ r ∷ []
while-snoc_all t [] r h w = rw h
while-snoc_all t (q ∷ rs) r h w = ground (arith, while-snoc_all t rs r h)

all_after :
    (min k : Bytes) (rs : List Row)
    → Above k rs
    → less min k ≡ true
    → filter (λ r. less min r.0) rs ≡ rs
all_after min k [] a h = refl
all_after min k (r ∷ rs) a h = ground (arith, all_after min k rs a.1 h, less_trans min k r.0 h a.0)

while-reverse :
    (min : Bytes) (rs : List Row)
    → Ascending rs
    → while (less min) (reverse rs) ≡ reverse (filter (λ r. less min r.0) rs)
while-reverse min [] asc = refl
while-reverse min (r ∷ rs) asc = elim (Bool-cases (less min r.0)) [
  | inl late ↦
      rw (late, reverse-cons)
        (while-snoc_all (less min) (reverse rs) r late
            (while-reverse min rs asc.1 ∙ ap reverse (all_after min r.0 rs asc.0 late))
          ∙ rw (all_after min r.0 rs asc.0 late) (sym (reverse-cons r rs)))
  | inr early ↦
      rw (early, reverse-cons)
        (while-snoc (less min) (reverse rs) r early ∙ while-reverse min rs asc.1)
]

module _ {B : Bolt} (json : Json Share) (d : Db B) {b : B.Bucket} (rs : List Row) where
  pps_eligible_shares_within :
      (min max : Bytes)
      → fetch_bucket share_bkt d ≡ ok b
      → Decodes json (B.entries b) rs
      → (pps_eligible_shares json (some min) max d
          ≡ ok (shares_of (filter (λ r. not (less r.0 min) && not (less max r.0)) rs)))
        × (pps_eligible_shares json none max d ≡ ok (shares_of rs))
  unfolding pps_eligible_shares
  pps_eligible_shares_within min max found rows =
      let asc = Decodes-Ascending json (B.entries b) rs rows (B.entries-Ascending b) in
      (
        rw (found, pps_eligible_shares)
            (share_loop_lem json (λ k. not (less max k)) [] (seek min (B.entries b))
                (seek_rows min rs) (seek-Decodes json min (B.entries b) rs rows)
              ∙ ap (λ q. ok (shares_of q)) (while-seek min max rs asc)),
        rw (found, pps_eligible_shares)
            (share_loop_lem json (λ k. true) [] (B.entries b) rs rows
              ∙ ap (λ q. ok (shares_of q)) (while_all rs)),
      )

  pplns_eligible_shares_after :
      (min : Bytes)
      → fetch_bucket share_bkt d ≡ ok b
      → Decodes json (B.entries b) rs
      → pplns_eligible_shares json min d ≡ ok (shares_of (reverse (filter (λ r. less min r.0) rs)))
  unfolding pplns_eligible_shares
  pplns_eligible_shares_after min found rows =
      let asc = Decodes-Ascending json (B.entries b) rs rows (B.entries-Ascending b) in
      rw (found, pplns_eligible_shares)
        (share_loop_lem json (less min) [] (reverse (B.entries b)) (reverse rs)
            (Decodes-reverse json (B.entries b) rs rows)
          ∙ ap (λ q. ok (shares_of q)) (while-reverse min rs asc))

  -- Where the share bucket holds these rows, PPSEligibleShares returns the shares with a key from `min`
  -- to `max`, both included, in key order, and with no minimum every share; and PPLNSEligibleShares
  -- returns the shares with a key above `min`, from the greatest key to the least.
  pub eligible_shares :
      (min max : Bytes)
      → fetch_bucket share_bkt d ≡ ok b
      → Decodes json (B.entries b) rs
      → (pps_eligible_shares json (some min) max d
          ≡ ok (shares_of (filter (λ r. not (less r.0 min) && not (less max r.0)) rs)))
        × (pps_eligible_shares json none max d ≡ ok (shares_of rs))
        × (pplns_eligible_shares json min d
            ≡ ok (shares_of (reverse (filter (λ r. less min r.0) rs))))
  eligible_shares min max found rows =
      let within = pps_eligible_shares_within min max found rows in
      (within.0, within.1, pplns_eligible_shares_after min found rows)
