-- ===== src/Client/HashRate.antt =====
-- pool/client.go, hashMonitor and setHashRate: the estimate of a client's hash rate.
use eacrpool.Prelude.{ℕ, ◌*◌, ◌==◌, if◌then◌else◌}
use eacrpool.Rat.{Rat, add, quo}
use eacrpool.Difficulty.{of_int}
use eacrpool.Client.{Client, ClientConfig}

-- the mean of the old rate and the new one
unfoldable pub set_hash_rate : Rat → Client → Client
unfolding of_int
set_hash_rate hash c = record c { hash_rate = quo (add c.hash_rate hash) (of_int 2) }

-- `difficulty * iterations / average`
unfoldable pub estimated_rate : Rat → Rat → Rat → Rat
estimated_rate difficulty nonce_iterations average =
    quo
      (record {
        num = difficulty.num * nonce_iterations.num;
        den = difficulty.den * nonce_iterations.den;
      })
      average

-- A tick of hashMonitor. `average` is the value of the float64 that `20 / submissions` comes to, for
-- submissions that are not zero.
unfoldable pub measure_hash_rate : ClientConfig → Rat → (ℕ → Rat) → Client → Client
unfolding set_hash_rate estimated_rate
measure_hash_rate cfg nonce_iterations average c =
    if c.submissions == 0
    then c
    else record (set_hash_rate
        (estimated_rate cfg.difficulty_info.difficulty nonce_iterations (average c.submissions))
        c) { submissions = 0 }
