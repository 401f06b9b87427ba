-- ===== src/Difficulty/Targets.antt =====
-- pool/difficulty.go and pool/share.go: the pool's targets for the miners.
use eacrpool.Prelude.{
  ℕ, ◌*◌, ◌<◌, ◌≡◌, refl, inl, inr, true, false, List, [], ◌∷◌, arith, Bool-cases, ◌⊎◌,
}
use eacrpool.Errors.{ok}
use eacrpool.Bytes.{Bytes, equal}
use eacrpool.Bolt.{lookup}
use eacrpool.Rat.{Rat, quo, is_zero, IsPositive, Same}
use eacrpool.Difficulty.{
  Miner, cpu_miner, innosilicon, dr3, dr5, whatsminer, name, DifficultyInfo, Params, above, of_int,
  divide, calculate_pool_difficulty, difficulty_to_target, calculate_pool_target, difficulty_loop,
  new_difficulty_set, fetch_miner_difficulty,
}

mul_pos : (a b : ℕ) → 0 < a → 0 < b → 0 < a * b
mul_pos a b p q = grind arith

quo-IsPositive : (a b : Rat) → IsPositive a → IsPositive b → IsPositive (quo a b)
unfolding quo
quo-IsPositive a b p q = record {
  num_pos = mul_pos a.num b.den p.num_pos q.den_pos;
  den_pos = mul_pos a.den b.num p.den_pos q.num_pos;
}

of_int-IsPositive : (n : ℕ) → 0 < n → IsPositive (of_int n)
unfolding of_int
of_int-IsPositive n h = record { num_pos = h; den_pos = omega arith }

not-is_zero : (a : Rat) → IsPositive a → is_zero a ≡ false
not-is_zero a p = ground (arith, p.num_pos)

module _ (net : Params) (limit_pos : 0 < net.pow_limit)
    (iterations_pos : IsPositive net.iterations) where
  -- A target above zero and not above the limit of the network's, at which the difficulty is that many
  -- times as hard, unless the difficulty is below one and the target is the limit.
  pub record IsTarget (target difficulty : Rat) : Type 0 where
    pub positive : IsPositive target
    pub within : above target (of_int net.pow_limit) ≡ false
    pub exact :
        Same target (quo (of_int net.pow_limit) difficulty)
        ⊎ ((target ≡ of_int net.pow_limit)
            × (above (quo (of_int net.pow_limit) difficulty) (of_int net.pow_limit) ≡ true))

  difficulty-IsPositive :
      (hash_rate secs : ℕ)
      → 0 < hash_rate
      → 0 < secs
      → (difficulty : Rat) × (calculate_pool_difficulty net hash_rate secs ≡ ok difficulty)
        × IsPositive difficulty
  unfolding calculate_pool_difficulty divide
  difficulty-IsPositive hash_rate secs h s =
      let n = of_int (hash_rate * secs) in
      let positive =
        quo-IsPositive n net.iterations
          (of_int-IsPositive (hash_rate * secs) (mul_pos hash_rate secs h s)) iterations_pos in
      (
        quo n net.iterations,
        ground (
          arith,
          not-is_zero net.iterations iterations_pos,
          not-is_zero (quo n net.iterations) positive,
        ),
        positive,
      )

  IsTarget-of :
      (difficulty : Rat)
      → IsPositive difficulty
      → (target : Rat) × (difficulty_to_target net difficulty ≡ ok target)
        × IsTarget target difficulty
  unfolding difficulty_to_target divide above
  IsTarget-of difficulty p =
      let limit = of_int net.pow_limit in
      let target = quo limit difficulty in
      let positive = of_int-IsPositive net.pow_limit limit_pos in
      elim (Bool-cases (above target limit)) [
        | inl high ↦ (
          limit,
          ground (arith, high, not-is_zero difficulty p),
          record { positive = positive; within = not_above limit; exact = inr (refl, high) },
        )
        | inr low ↦ (
          target,
          ground (arith, low, not-is_zero difficulty p),
          record {
            positive = quo-IsPositive limit difficulty positive p;
            within = low;
            exact = inl refl;
          },
        )
      ]
    where
      not_above : (a : Rat) → above a a ≡ false
      not_above a = ground arith

  pool-IsTarget :
      (hash_rate secs : ℕ)
      → 0 < hash_rate
      → 0 < secs
      → (target : Rat) × (difficulty : Rat) × (calculate_pool_target net hash_rate secs
          ≡ ok (target, difficulty))
        × IsTarget target difficulty
  unfolding calculate_pool_target
  pool-IsTarget hash_rate secs h s =
      let (difficulty, calculated, p) = difficulty-IsPositive hash_rate secs h s in
      let (target, found, is_target) = IsTarget-of difficulty p in
      (target, difficulty, ground (arith, calculated, found), is_target)

  abbrev info : Rat → Rat → Rat → DifficultyInfo
  info pow_limit target difficulty = record {
    target = target;
    difficulty = difficulty;
    pow_limit = pow_limit;
  }

  -- the information of a miner in a set of them
  abbrev pub HasTarget : Rat → Miner → List (Bytes × DifficultyInfo) → Type 0
  HasTarget pow_limit miner diffs =
      (info : DifficultyInfo) × (fetch_miner_difficulty (name miner) diffs ≡ ok info)
      × (info.pow_limit ≡ pow_limit)
      × IsTarget info.target info.difficulty

  -- For a network whose limit and number of iterations are above zero, and a time to a share above zero,
  -- the pool has a difficulty for each miner: its target is above zero, so that no submission divides by
  -- a zero target, is not above the network's limit, and is the limit over the difficulty unless that is
  -- above the limit.
  pub new_difficulty_set_targets :
      (pow_limit : Rat) (secs : ℕ)
      → 0 < secs
      → (diffs : List (Bytes × DifficultyInfo)) × (new_difficulty_set net pow_limit secs ≡ ok diffs)
        × ((miner : Miner) → HasTarget pow_limit miner diffs)
  unfolding new_difficulty_set difficulty_loop fetch_miner_difficulty lookup name equal
  new_difficulty_set_targets pow_limit secs s =
      let (t1, d1, e1, k1) = pool-IsTarget 5000 secs (omega arith) s in
      let (t2, d2, e2, k2) = pool-IsTarget 2400000000000 secs (omega arith) s in
      let (t3, d3, e3, k3) = pool-IsTarget 7800000000000 secs (omega arith) s in
      let (t4, d4, e4, k4) = pool-IsTarget 35000000000000 secs (omega arith) s in
      let (t5, d5, e5, k5) = pool-IsTarget 48000000000000 secs (omega arith) s in
      let diffs : List (Bytes × DifficultyInfo) =
        (name cpu_miner, info pow_limit t1 d1)
        ∷ (name innosilicon, info pow_limit t2 d2)
        ∷ (name dr3, info pow_limit t3 d3)
        ∷ (name dr5, info pow_limit t4 d4)
        ∷ (name whatsminer, info pow_limit t5 d5)
        ∷ [] in
      (
        diffs,
        rw (new_difficulty_set, difficulty_loop, e1, e2, e3, e4, e5) refl,
        λ miner. elim miner as (λ k. HasTarget pow_limit k diffs) [
          | cpu_miner ↦ (info pow_limit t1 d1, refl, refl, k1)
          | innosilicon ↦ (info pow_limit t2 d2, refl, refl, k2)
          | dr3 ↦ (info pow_limit t3 d3, refl, refl, k3)
          | dr5 ↦ (info pow_limit t4 d4, refl, refl, k4)
          | whatsminer ↦ (info pow_limit t5 d5, refl, refl, k5)
        ],
      )
