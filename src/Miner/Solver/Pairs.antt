-- ===== src/Miner/Solver/Pairs.antt =====
-- cmd/miner/cpuminer.go, solveBlock: the pairs of nonces that its turns try.
use eacrpool.Prelude.{
  ℕ, ◌+◌, ◌/◌, ◌%◌, ◌^◌, ◌<◌, ◌≡◌, refl, ap, ◌∙◌, Bool, true, false, some, List, [], ◌∷◌, ◌++◌,
  length, arith,
}
use eacrpool.Bytes.{Bytes, put_uint32_le}
use eacrpool.Solved.{splice}
use eacrpool.Solved.Splice.{length-splice, splice-splice, splice_swap}
use eacrpool.Miner.Solver.{
  Signal, nothing, done, chain_update, tick, Turn, first_turn, heed, set_nonces, next_turn,
}

-- the header with the `p`-th pair of nonces
abbrev pub candidate : Bytes → ℕ → Bytes
candidate header p = set_nonces (p % 2 ^ 32) (p / 2 ^ 32) header

pub set_nonces-set_nonces :
    (a b c d : ℕ) (header : Bytes) → set_nonces a b (set_nonces c d header) ≡ set_nonces a b header
unfolding set_nonces put_uint32_le
set_nonces-set_nonces a b c d header =
    ap (splice 148 4 (put_uint32_le b)) (
      splice_swap 140 4 148 4 (put_uint32_le a) (put_uint32_le d)
        (splice 140 4 (put_uint32_le c) header) (omega arith)
      ∙ ap (splice 148 4 (put_uint32_le d))
          (splice-splice 140 4 (put_uint32_le a) (put_uint32_le c) header refl))
    ∙ splice-splice 148 4 (put_uint32_le b) (put_uint32_le d)
        (splice 140 4 (put_uint32_le a) header) refl

pub length-set_nonces : (a b : ℕ) (header : Bytes) → length (set_nonces a b header) ≡ length header
unfolding set_nonces
length-set_nonces a b header =
    length-splice 148 4 (put_uint32_le b) (splice 140 4 (put_uint32_le a) header)
    ∙ length-splice 140 4 (put_uint32_le a) header

-- the sum of what the monitor was sent
unfoldable pub total : List ℕ → ℕ
total [] = 0
total (n ∷ ns) = n + total ns

pub total-append : (ns : List ℕ) (n : ℕ) → total (ns ++ n ∷ []) ≡ total ns + n
unfolding total
total-append [] n = omega arith
total-append (m ∷ ns) n = ground (arith, total-append ns n)

pub total-last :
    (ns : List ℕ) (n p : ℕ)
    → total ns + n ≡ p
    → p + 1 < 2 ^ 64
    → total (ns ++ (n + 1) % 2 ^ 64 ∷ []) ≡ p + 1
total-last ns n p h small = total-append ns ((n + 1) % 2 ^ 64) ∙ omega arith

-- no signal ends the search
unfoldable pub goes_on : List Signal → Bool
goes_on [] = true
goes_on (nothing ∷ signals) = goes_on signals
goes_on (tick b ∷ signals) = goes_on signals
goes_on (done ∷ signals) = false
goes_on (chain_update ∷ signals) = false

-- The loops' variables before the `p`-th pair is tried.
pub record AtPair (header : Bytes) (p : ℕ) (t : Turn) : Type 0 where
  pub at_nonce : t.nonce ≡ p % 2 ^ 32
  pub at_extra_nonce_2 : t.extra_nonce_2 ≡ p / 2 ^ 32
  pub rewritten : (a b : ℕ) → set_nonces a b t.header ≡ set_nonces a b header
  pub lengths : length t.header ≡ length header
  pub counted : total t.updates + t.hashes_completed ≡ p

pub first_turn-AtPair : (header : Bytes) → AtPair header 0 (first_turn header)
unfolding first_turn total
first_turn-AtPair header = record {
  at_nonce = refl;
  at_extra_nonce_2 = refl;
  rewritten = λ a b. refl;
  lengths = refl;
  counted = refl;
}

pub heed-AtPair :
    (header : Bytes) (p : ℕ) (t : Turn) (signal : Signal) (signals : List Signal)
    → AtPair header p t
    → goes_on (signal ∷ signals) ≡ true
    → (u : Turn) × (heed signal t ≡ some u) × AtPair header p u × (goes_on signals ≡ true)
unfolding heed goes_on total
heed-AtPair header p t nothing signals at h = (t, refl, at, h)
heed-AtPair header p t (tick true) signals at h = (
  record t { hashes_completed = 0; updates = t.updates ++ t.hashes_completed ∷ [] },
  refl,
  record {
    at_nonce = at.at_nonce;
    at_extra_nonce_2 = at.at_extra_nonce_2;
    rewritten = at.rewritten;
    lengths = at.lengths;
    counted = ground (arith, total-append t.updates t.hashes_completed, at.counted);
  },
  h,
)
heed-AtPair header p t (tick false) signals at h = (t, refl, at, h)
heed-AtPair header p t done signals at h = ground arith
heed-AtPair header p t chain_update signals at h = ground arith

pub next_turn-header : (t : Turn) → (next_turn t).header ≡ t.header
unfolding next_turn
next_turn-header t = ground arith

next_turn-counts :
    (t : Turn)
    → total (next_turn t).updates + (next_turn t).hashes_completed
      ≡ total t.updates + t.hashes_completed
unfolding next_turn
next_turn-counts t = ground arith

next_turn-nonces :
    (p : ℕ) (t : Turn)
    → t.nonce ≡ p % 2 ^ 32
    → t.extra_nonce_2 ≡ p / 2 ^ 32
    → p + 1 < 2 ^ 64
    → ((next_turn t).nonce ≡ (p + 1) % 2 ^ 32) × ((next_turn t).extra_nonce_2 ≡ (p + 1) / 2 ^ 32)
unfolding next_turn
next_turn-nonces p t nonce extra small = (ground arith, ground arith)

-- the variables after a header that was read
abbrev pub counted_turn : Bytes → Turn → Turn
counted_turn header t = record t {
  header = header;
  hashes_completed = (t.hashes_completed + 1) % 2 ^ 64;
}

pub next_turn-AtPair :
    (header : Bytes) (p : ℕ) (t : Turn)
    → AtPair header p t
    → p + 1 < 2 ^ 64
    → AtPair header (p + 1) (next_turn (counted_turn (candidate header p) t))
next_turn-AtPair header p t at small =
    let tried = counted_turn (candidate header p) t in
    let same = next_turn-header tried in
    let (nonce, extra) = next_turn-nonces p tried at.at_nonce at.at_extra_nonce_2 small in
    record {
      at_nonce = nonce;
      at_extra_nonce_2 = extra;
      rewritten = λ a b.
          ap (set_nonces a b) same ∙ set_nonces-set_nonces a b (p % 2 ^ 32) (p / 2 ^ 32) header;
      lengths = ap length same ∙ length-set_nonces (p % 2 ^ 32) (p / 2 ^ 32) header;
      counted = ground (arith, next_turn-counts tried, at.counted);
    }
