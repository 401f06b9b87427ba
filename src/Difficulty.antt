-- ===== src/Difficulty.antt =====
-- pool/difficulty.go and the difficulties of pool/share.go: the hash rates and share weights of the
-- miners, the pool's target for each, and math/big's Int where it may be negative.
pub mod Targets
use eacrpool.Prelude.{
  ℕ, ◌+◌, ◌-◌, ◌*◌, ◌^◌, ◌==◌, ltb, Bool, true, false, Option, none, some, List, [], ◌∷◌,
  if◌then◌else◌,
}
use eacrpool.Errors.{Result, ok, err, panic, make_error, value_not_found}
use eacrpool.Bytes.{Bytes}
use eacrpool.Bolt.{lookup}
use eacrpool.Rat.{Rat, one_rat, quo, is_zero}
use eacrpool.Solved.{cpu, innosilicon_d9, antminer_dr3, antminer_dr5, whatsminer_d1}

-- big.Int: `negsuc n` is -(n + 1)
pub data ℤ : Type 0 where
  pos negsuc : ℕ → ℤ

-- in hashes per second
abbrev pub miner_hashes : List (Bytes × ℕ)
miner_hashes =
    (cpu, 5000)
    ∷ (innosilicon_d9, 2400000000000)
    ∷ (antminer_dr3, 7800000000000)
    ∷ (antminer_dr5, 35000000000000)
    ∷ (whatsminer_d1, 48000000000000)
    ∷ []

-- The miners that the pool opens endpoints for; `name` is the constant of each.
pub data Miner : Type 0 where
  cpu_miner innosilicon dr3 dr5 whatsminer : Miner

unfoldable pub name : Miner → Bytes
name cpu_miner = cpu
name innosilicon = innosilicon_d9
name dr3 = antminer_dr3
name dr5 = antminer_dr5
name whatsminer = whatsminer_d1

-- ShareWeights: the values of the float64 literals 1.0, 2.182, 7.091, 31.181 and 43.636.
unfoldable pub share_weights : Miner → Rat
share_weights cpu_miner = one_rat
share_weights innosilicon = record { num = 4913427193461211; den = 2251799813685248 }
share_weights dr3 = record { num = 7983756239421047; den = 1125899906842624 }
share_weights dr5 = record { num = 8776671248814965; den = 281474976710656 }
share_weights whatsminer = record { num = 6141221041873093; den = 140737488355328 }

pub record DifficultyInfo : Type 0 where
  pub target : Rat
  pub difficulty : Rat
  pub pow_limit : Rat

-- `net.PowLimit`, and the float64 that math.Pow and math.Log2 give for `2^(256 - floor(log2(limit)))`
pub record Params : Type 0 where
  pub pow_limit : ℕ
  pub iterations : Rat

-- A rational as wide as it is read: `a.Cmp(b) > 0`
unfoldable pub above : Rat → Rat → Bool
above a b = ltb (b.num * a.den) (a.num * b.den)

unfoldable pub of_int : ℕ → Rat
of_int n = record { num = n; den = 1 }

-- Quo, which panics for a divisor of zero
unfoldable pub divide : Rat → Rat → Result Rat
divide a b = if is_zero b then panic else ok (quo a b)

module _ (net : Params) where
  -- A difficulty is not below zero, so the clamp is the one of zero.
  unfoldable pub calculate_pool_difficulty : ℕ → ℕ → Result Rat
  unfolding divide of_int
  calculate_pool_difficulty hash_rate target_time_secs =
      elim (divide (of_int (hash_rate * target_time_secs)) net.iterations) [
        | err e ↦ err e
        | panic ↦ panic
        | ok difficulty ↦ if is_zero difficulty then ok one_rat else ok difficulty
      ]

  unfoldable pub difficulty_to_target : Rat → Result Rat
  unfolding divide of_int above
  difficulty_to_target difficulty = elim (divide (of_int net.pow_limit) difficulty) [
    | err e ↦ err e
    | panic ↦ panic
    | ok target ↦
        if above target (of_int net.pow_limit) then ok (of_int net.pow_limit) else ok target
  ]

  -- the target and the difficulty
  unfoldable pub calculate_pool_target : ℕ → ℕ → Result (Rat × Rat)
  unfolding calculate_pool_difficulty difficulty_to_target
  calculate_pool_target hash_rate target_time_secs =
      elim (calculate_pool_difficulty hash_rate target_time_secs) [
        | err e ↦ err e
        | panic ↦ panic
        | ok difficulty ↦ elim (difficulty_to_target difficulty) [
          | err e ↦ err e
          | panic ↦ panic
          | ok target ↦ ok (target, difficulty)
        ]
      ]

  -- The loop of NewDifficultySet over the miners; calculatePoolTarget returns no error.
  unfoldable pub difficulty_loop :
      Rat → ℕ → List (Bytes × ℕ) → Result (List (Bytes × DifficultyInfo))
  unfolding calculate_pool_target
  difficulty_loop pow_limit max_gen_time [] = ok []
  difficulty_loop pow_limit max_gen_time ((miner, hash_rate) ∷ rest) =
      elim (calculate_pool_target hash_rate max_gen_time) [
        | err e ↦ err e
        | panic ↦ panic
        | ok (target, difficulty) ↦ elim (difficulty_loop pow_limit max_gen_time rest) [
          | err e ↦ err e
          | panic ↦ panic
          | ok diffs ↦ ok (
              (miner, record { target = target; difficulty = difficulty; pow_limit = pow_limit })
              ∷ diffs)
        ]
      ]

  unfoldable pub new_difficulty_set : Rat → ℕ → Result (List (Bytes × DifficultyInfo))
  unfolding difficulty_loop
  new_difficulty_set pow_limit max_gen_time = difficulty_loop pow_limit max_gen_time miner_hashes

unfoldable pub fetch_miner_difficulty :
    Bytes → List (Bytes × DifficultyInfo) → Result DifficultyInfo
fetch_miner_difficulty miner diffs = elim (lookup miner diffs) [
  | none ↦ err (make_error value_not_found)
  | some info ↦ ok info
]
