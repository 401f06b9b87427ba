-- ===== src/Miner/Solver/Agreement.antt =====
-- cmd/miner/cpuminer.go, solveBlock, and pool/message.go, GenerateSolvedBlockHeader: that the pool
-- rebuilds the header that the miner solved.
use eacrpool.Prelude.{
  ℕ, ◌≤◌, ◌≡◌, refl, sym, ap, ◌∙◌, true, false, ltb, some, Option-cases, inl, inr, List, [], ◌∷◌,
  length, take, drop, arith,
}
use mathlib.Core.Path.{subst}
use eacrpool.Errors.{ok, result_cases}
use eacrpool.Bytes.{Bytes, hex_encode, put_uint32_le, equal}
use eacrpool.Bytes.Codec.{length-hex_encode}
use eacrpool.Rat.{Rat}
use eacrpool.ChainState.{BlockHeader}
use eacrpool.Client.{Chain}
use eacrpool.Solved.{cpu, splice, solved_text, two_nonces, reaches, solved_header_text}
use eacrpool.Solved.Splice.{
  length-splice, splice_swap, hex_encode-splice, splice_back, take-drop-splice,
  take-drop-splice_after,
}
use eacrpool.Miner.Solver.{
  Signal, nothing, done, chain_update, tick, SubmitWorkData, Turn, stopped, searching, solved,
  first_turn, heed, set_nonces, word_text, work_data, try_nonces, solve_block,
}
use eacrpool.Miner.Solver.Pairs.{set_nonces-set_nonces, next_turn-header, counted_turn}

-- the part of a header that is read back
abbrev word : ℕ → Bytes → Bytes
word a header = take 4 (drop a header)

rebuilt_words :
    (job x n e : Bytes)
    → length n ≡ 4
    → length e ≡ 4
    → 152 ≤ length job
    → (let last = splice 148 4 e (splice 140 4 n (splice 144 4 x job)) in
        splice 148 4
          (word 148 last)
          (splice 144 4 x (splice 140 4 (word 140 last) (splice 136 4 (word 136 last) job)))
        ≡ last)
rebuilt_words job x n e hn he long =
    let first = splice 144 4 x job in
    let both = splice 140 4 n first in
    let l1 = length-splice 144 4 x job in
    let l2 = length-splice 140 4 n first in
    rw
      (
        take-drop-splice 148 4 e both he (omega arith),
        take-drop-splice_after 140 4 148 4 e both (omega arith),
        take-drop-splice 140 4 n first hn (omega arith),
        take-drop-splice_after 136 4 148 4 e both (omega arith),
        take-drop-splice_after 136 4 140 4 n first (omega arith),
        take-drop-splice_after 136 4 144 4 x job (omega arith),
        splice_back 136 4 job,
        splice_swap 140 4 144 4 n x job (omega arith),
      )
      refl

-- The copies that the pool makes, in the bytes of a header.
rebuilt_bytes :
    (job x : Bytes) (a b : ℕ)
    → 152 ≤ length job
    → (let last = set_nonces a b (splice 144 4 x job) in
        splice 148 4
          (word 148 last)
          (splice 144 4 x (splice 140 4 (word 140 last) (splice 136 4 (word 136 last) job)))
        ≡ last)
unfolding set_nonces put_uint32_le
rebuilt_bytes job x a b long =
    rebuilt_words job x (put_uint32_le a) (put_uint32_le b) refl refl long

-- The same in the text of the header.
rebuilt_text :
    (job x t n e : Bytes)
    → solved_text
        (two_nonces (hex_encode x) (hex_encode e))
        (hex_encode job)
        (hex_encode t)
        (hex_encode n)
      ≡ hex_encode (splice 148 4 e (splice 144 4 x (splice 140 4 n (splice 136 4 t job))))
unfolding solved_text
rebuilt_text job x t n e =
    rw
      (
        hex_encode-splice 148 4 e (splice 144 4 x (splice 140 4 n (splice 136 4 t job))),
        hex_encode-splice 144 4 x (splice 140 4 n (splice 136 4 t job)),
        hex_encode-splice 140 4 n (splice 136 4 t job),
        hex_encode-splice 136 4 t job,
      )
      refl

-- GenerateSolvedBlockHeader on the words of a header that the miner wrote
rebuilt_header :
    (job x : Bytes) (a b : ℕ) (last : Bytes)
    → last ≡ set_nonces a b (splice 144 4 x job)
    → 152 ≤ length job
    → solved_header_text
        (hex_encode job)
        (hex_encode x)
        (hex_encode (word 148 last))
        (hex_encode (word 136 last))
        (hex_encode (word 140 last))
        cpu
      ≡ ok (hex_encode last)
unfolding solved_header_text reaches equal
rebuilt_header job x a b last same long =
    let enough : ltb (length (hex_encode job)) 304 ≡ false =
      ground (arith, length-hex_encode job) in
    rw (enough, rebuilt_text job x (word 136 last) (word 140 last) (word 148 last))
      (ap (λ t. ok (hex_encode t))
        (ap
            (λ l.
              splice 148 4 (word 148 l)
                (splice 144 4 x (splice 140 4 (word 140 l) (splice 136 4 (word 136 l) job))))
            same
          ∙ rebuilt_bytes job x a b long
          ∙ sym same))

heed-header : (signal : Signal) (t u : Turn) → heed signal t ≡ some u → u.header ≡ t.header
unfolding heed
heed-header nothing t u h = ground arith
heed-header done t u h = ground arith
heed-header chain_update t u h = ground arith
heed-header (tick true) t u h = ground arith
heed-header (tick false) t u h = ground arith

module _ (chain : Chain) (timestamp : BlockHeader → ℕ) (target : Rat) where
  -- what a search that returns a solution leaves
  record Solution (header : Bytes) (found : SubmitWorkData) (last : Turn) : Type 0 where
    nonce_tried : ℕ
    extra_nonce_2_tried : ℕ
    read : BlockHeader
    header_left : last.header ≡ set_nonces nonce_tried extra_nonce_2_tried header
    reads : chain.from_bytes last.header ≡ some read
    sent : found ≡ work_data chain timestamp read last.header

  try_nonces-Solution :
      (t last : Turn) (found : SubmitWorkData)
      → try_nonces chain timestamp target t ≡ ok (solved found last)
      → Solution t.header found last
  unfolding try_nonces
  try_nonces-Solution t last found h =
      elim (Option-cases (chain.from_bytes (set_nonces t.nonce t.extra_nonce_2 t.header))) [
        | inl unread ↦ absurd (ground arith)
        | inr (read, reads) ↦
            let same : last.header ≡ set_nonces t.nonce t.extra_nonce_2 t.header = ground arith in
            let as_sent : found
                ≡ work_data chain timestamp read (set_nonces t.nonce t.extra_nonce_2 t.header) =
              ground arith in
            record {
              nonce_tried = t.nonce;
              extra_nonce_2_tried = t.extra_nonce_2;
              read = read;
              header_left = same;
              reads = ap chain.from_bytes same ∙ reads;
              sent = as_sent ∙ ap (work_data chain timestamp read) (sym same);
            }
      ]

  try_nonces-header :
      (t next : Turn)
      → try_nonces chain timestamp target t ≡ ok (searching next)
      → next.header ≡ set_nonces t.nonce t.extra_nonce_2 t.header
  unfolding try_nonces
  try_nonces-header t next h =
      let header = set_nonces t.nonce t.extra_nonce_2 t.header in
      let tried = counted_turn header t in
      elim (Option-cases (chain.from_bytes header)) [
        | inl unread ↦ absurd (ground arith)
        | inr (read, reads) ↦ ground (arith, next_turn-header tried)
      ]

  Solution-earlier :
      (header : Bytes) (a b : ℕ) (tried : Bytes) (found : SubmitWorkData) (last : Turn)
      → tried ≡ set_nonces a b header
      → Solution tried found last
      → Solution header found last
  Solution-earlier header a b tried found last same s = record {
    nonce_tried = s.nonce_tried;
    extra_nonce_2_tried = s.extra_nonce_2_tried;
    read = s.read;
    header_left =
        s.header_left
        ∙ ap (set_nonces s.nonce_tried s.extra_nonce_2_tried) same
        ∙ set_nonces-set_nonces s.nonce_tried s.extra_nonce_2_tried a b header;
    reads = s.reads;
    sent = s.sent;
  }

  solve_block-Solution :
      (signals : List Signal) (t last : Turn) (found : SubmitWorkData)
      → solve_block chain timestamp target signals t ≡ ok (solved found last)
      → Solution t.header found last
  unfolding solve_block
  solve_block-Solution [] t last found h = ground arith
  solve_block-Solution (signal ∷ signals) t last found h = elim (Option-cases (heed signal t)) [
    | inl stops ↦ absurd (ground arith)
    | inr (u, heeded) ↦ elim (result_cases (try_nonces chain timestamp target u)) [
      | inl (stopped v, turn) ↦ absurd (ground arith)
      | inl (solved other v, turn) ↦
          subst (λ b. Solution b found last) (heed-header signal t u heeded)
            (try_nonces-Solution u last found (ground (arith, turn)))
      | inl (searching v, turn) ↦
          Solution-earlier t.header u.nonce u.extra_nonce_2 v.header found last
            (try_nonces-header u v turn
              ∙ ap (set_nonces u.nonce u.extra_nonce_2) (heed-header signal t u heeded))
            (solve_block-Solution signals v last found (ground (arith, h, heeded, turn)))
      | inr (inl (e, turn)) ↦ absurd (ground arith)
      | inr (inr turn) ↦ absurd (ground arith)
    ]
  ]

  -- Where a header's timestamp is the word at 136 of its bytes, and a job's header has at least 152
  -- bytes: whatever the miner solves, from that header with its first extra nonce `x`, the pool rebuilds
  -- the text of the solved header from the job and the submission.
  pub solve_block_agrees :
      (job x : Bytes) (signals : List Signal) (last : Turn) (found : SubmitWorkData)
      → ((bytes : Bytes) (h : BlockHeader)
          → chain.from_bytes bytes ≡ some h
          → put_uint32_le (timestamp h) ≡ take 4 (drop 136 bytes))
      → 152 ≤ length job
      → solve_block chain timestamp target signals (first_turn (splice 144 4 x job))
        ≡ ok (solved found last)
      → solved_header_text
          (hex_encode job)
          (hex_encode x)
          found.extra_nonce_2
          found.n_time
          found.nonce
          cpu
        ≡ ok (hex_encode last.header)
  unfolding first_turn work_data word_text
  solve_block_agrees job x signals last found times long h =
      let s = solve_block-Solution signals (first_turn (splice 144 4 x job)) last found h in
      let stamp = times last.header s.read s.reads in
      rw (s.sent, stamp)
        (rebuilt_header job x s.nonce_tried s.extra_nonce_2_tried last.header s.header_left long)
