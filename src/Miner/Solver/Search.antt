-- ===== src/Miner/Solver/Search.antt =====
-- cmd/miner/cpuminer.go, solveBlock: that the search ends.
use eacrpool.Prelude.{
  ℕ, zero, suc, ◌+◌, ◌%◌, ◌^◌, ◌≤◌, ◌<◌, ◌≡◌, refl, ap, ◌∙◌, Bool, true, false, Bool-cases, ◌==◌,
  ltb, none, some, inl, inr, ◌⊎◌, List, [], ◌∷◌, ◌++◌, length, arith, if◌then◌else◌,
}
use mathlib.Core.Path.{subst}
use eacrpool.Errors.{Result, ok}
use eacrpool.Bytes.{Bytes}
use eacrpool.Rat.{Rat}
use eacrpool.ChainState.{BlockHeader}
use eacrpool.Client.{Chain}
use eacrpool.Miner.Solver.{
  Signal, SubmitWorkData, Turn, Outcome, searching, solved, first_turn, heed, set_nonces, next_turn,
  work_data, below, try_nonces, solve_block,
}
use eacrpool.Miner.Solver.Pairs.{
  candidate, total, total-last, goes_on, AtPair, first_turn-AtPair, heed-AtPair, counted_turn,
  next_turn-AtPair,
}

nonzero : (d : ℕ) → (d ≡ 0) ⊎ ((e : ℕ) × (d ≡ suc e))
nonzero zero = inl refl
nonzero (suc e) = inr (e, refl)

module _ (chain : Chain) (timestamp : BlockHeader → ℕ) (target : Rat) (header : Bytes) where
  -- whether the header with the `p`-th pair is read, and has a hash below the target
  unfoldable pub hits : ℕ → Bool
  hits p = elim (chain.from_bytes (candidate header p)) [
    | none ↦ false
    | some h ↦ below chain timestamp target h
  ]

  -- The search ended with the `k`-th pair, the first one at or after `p` that hits.
  pub record FirstHit (p j : ℕ) (signals : List Signal) (t : Turn) : Type 0 where
    pub pair : ℕ
    pub from_start : p ≤ pair
    pub to_hit : pair ≤ j
    pub earlier : (i : ℕ) → p ≤ i → i < pair → hits i ≡ false
    pub hit : hits pair ≡ true
    pub read : BlockHeader
    pub reads : chain.from_bytes (candidate header pair) ≡ some read
    pub last : Turn
    pub header_left : last.header ≡ candidate header pair
    pub reported : total last.updates ≡ pair + 1
    pub returned :
        solve_block chain timestamp target signals t
        ≡ ok (solved (work_data chain timestamp read (candidate header pair)) last)

  hits-read :
      (p : ℕ) (h : BlockHeader)
      → chain.from_bytes (candidate header p) ≡ some h
      → hits p ≡ below chain timestamp target h
  unfolding hits
  hits-read p h read = rw (hits, read) refl

  -- what becomes of a turn that reads a header from the bytes
  unfoldable tried : BlockHeader → Bytes → Turn → Result Outcome
  tried h bytes t =
      let u = counted_turn bytes t in
      if below chain timestamp target h
      then ok (
          solved (work_data chain timestamp h bytes)
            (record u { updates = u.updates ++ u.hashes_completed ∷ [] }))
      else ok (searching (next_turn u))

  try_nonces-AtPair :
      (p : ℕ) (t : Turn) (h : BlockHeader)
      → AtPair header p t
      → 152 ≤ length header
      → chain.from_bytes (candidate header p) ≡ some h
      → try_nonces chain timestamp target t ≡ tried h (candidate header p) t
  unfolding try_nonces tried
  try_nonces-AtPair p t h at long read =
      let same : set_nonces t.nonce t.extra_nonce_2 t.header ≡ candidate header p =
        at.rewritten t.nonce t.extra_nonce_2
        ∙ ap (λ n. set_nonces n t.extra_nonce_2 header) at.at_nonce
        ∙ ap (λ e. set_nonces (p % 2 ^ 32) e header) at.at_extra_nonce_2 in
      let enough : ltb (length t.header) 152 ≡ false = ground (arith, at.lengths) in
      rw (enough, ap chain.from_bytes same ∙ read) refl ∙ ap (λ b. tried h b t) same

  solve_block-solved :
      (signal : Signal) (signals : List Signal) (t u last : Turn) (found : SubmitWorkData)
      → heed signal t ≡ some u
      → try_nonces chain timestamp target u ≡ ok (solved found last)
      → solve_block chain timestamp target (signal ∷ signals) t ≡ ok (solved found last)
  unfolding solve_block
  solve_block-solved signal signals t u last found heeded turn = rw (solve_block, heeded, turn) refl

  solve_block-searching :
      (signal : Signal) (signals : List Signal) (t u next : Turn)
      → heed signal t ≡ some u
      → try_nonces chain timestamp target u ≡ ok (searching next)
      → solve_block chain timestamp target (signal ∷ signals) t
        ≡ solve_block chain timestamp target signals next
  unfolding solve_block
  solve_block-searching signal signals t u next heeded turn = rw (solve_block, heeded, turn) refl

  FirstHit-earlier :
      (p j : ℕ) (signals rest : List Signal) (t next : Turn)
      → hits p ≡ false
      → solve_block chain timestamp target signals t ≡ solve_block chain timestamp target rest next
      → FirstHit (p + 1) j rest next
      → FirstHit p j signals t
  FirstHit-earlier p j signals rest t next missed step f = record {
    pair = f.pair;
    from_start = omega arith;
    to_hit = f.to_hit;
    earlier = λ i from before. elim (Bool-cases (i == p)) [
      | inl here ↦ ap hits (ground arith) ∙ missed
      | inr past ↦ f.earlier i (ground arith) before
    ];
    hit = f.hit;
    read = f.read;
    reads = f.reads;
    last = f.last;
    header_left = f.header_left;
    reported = f.reported;
    returned = step ∙ f.returned;
  }

  FirstHit-now :
      (signal : Signal) (signals : List Signal) (p j : ℕ) (t u : Turn) (h : BlockHeader)
      → p ≤ j
      → p + 1 < 2 ^ 64
      → AtPair header p u
      → heed signal t ≡ some u
      → chain.from_bytes (candidate header p) ≡ some h
      → try_nonces chain timestamp target u ≡ tried h (candidate header p) u
      → below chain timestamp target h ≡ true
      → FirstHit p j (signal ∷ signals) t
  unfolding tried
  FirstHit-now signal signals p j t u h within small at heeded read turn hit =
      let count = (u.hashes_completed + 1) % 2 ^ 64 in
      let last = record u {
        header = candidate header p;
        hashes_completed = count;
        updates = u.updates ++ count ∷ [];
      } in
      record {
        pair = p;
        from_start = omega arith;
        to_hit = within;
        earlier = λ i from before. absurd (omega arith);
        hit = hits-read p h read ∙ hit;
        read = h;
        reads = read;
        last = last;
        header_left = refl;
        reported = total-last u.updates u.hashes_completed p at.counted small;
        returned =
            solve_block-solved signal signals t u last
              (work_data chain timestamp h (candidate header p)) heeded (turn ∙ rw hit refl);
      }

  search-FirstHit :
      (signals : List Signal) (p d : ℕ) (t : Turn)
      → ((i : ℕ) → (h : BlockHeader) × (chain.from_bytes (candidate header i) ≡ some h))
      → 152 ≤ length header
      → AtPair header p t
      → goes_on signals ≡ true
      → d < length signals
      → p + d + 1 < 2 ^ 64
      → hits (p + d) ≡ true
      → FirstHit p (p + d) signals t
  unfolding tried
  search-FirstHit [] p d t reads long at on short small hit = absurd (omega arith)
  search-FirstHit (signal ∷ signals) p d t reads long at on short small hit =
      let (u, heeded, at_u, on_rest) = heed-AtPair header p t signal signals at on in
      let (h, read) = reads p in
      let turn = try_nonces-AtPair p u h at_u long read in
      elim (Bool-cases (below chain timestamp target h)) [
        | inl now ↦
            FirstHit-now signal signals p (p + d) t u h (omega arith) (omega arith) at_u heeded read
              turn now
        | inr missed ↦ elim (nonzero d) [
          | inl none_left ↦ absurd (ground (arith, hits-read p h read))
          | inr (e, later) ↦
              let next = next_turn (counted_turn (candidate header p) u) in
              let step =
                solve_block-searching signal signals t u next heeded (turn ∙ rw missed refl) in
              let there : p + 1 + e ≡ p + d = omega arith in
              FirstHit-earlier p (p + d) (signal ∷ signals) signals t next
                (hits-read p h read ∙ missed) step
                (subst (λ j. FirstHit (p + 1) j signals next) there
                  (search-FirstHit signals (p + 1) e next reads long
                    (next_turn-AtPair header p u at_u (omega arith)) on_rest (omega arith)
                    (omega arith) (ap hits there ∙ hit)))
        ]
      ]

  -- The search ends: where no signal stops it, every header can be read and has at least 152 bytes, and
  -- some pair of nonces, before the last of the 2 ^ 64, hits within the turns that are given, solveBlock
  -- returns with the first pair that hits. What it submits and the bytes that it leaves are those of
  -- this pair, and the monitor was sent the number of all hashes.
  pub solve_block_ends :
      (signals : List Signal) (j : ℕ)
      → ((i : ℕ) → (h : BlockHeader) × (chain.from_bytes (candidate header i) ≡ some h))
      → 152 ≤ length header
      → goes_on signals ≡ true
      → j < length signals
      → j + 1 < 2 ^ 64
      → hits j ≡ true
      → FirstHit 0 j signals (first_turn header)
  solve_block_ends signals j reads long on short small hit =
      let start : 0 + j ≡ j = omega arith in
      subst (λ i. FirstHit 0 i signals (first_turn header)) start
        (search-FirstHit signals 0 j (first_turn header) reads long (first_turn-AtPair header) on
          short (omega arith) (ap hits start ∙ hit))
