-- ===== src/Miner/Solver.antt =====
-- cmd/miner/cpuminer.go: solveBlock, the search of the CPU miner for a header below its target.
pub mod Pairs
pub mod Search
pub mod Agreement
use eacrpool.Prelude.{
  ℕ, ◌+◌, ◌-◌, ◌^◌, ◌%◌, ◌==◌, ltb, Bool, true, false, Option, none, some, List, [], ◌∷◌, ◌++◌,
  take, drop, length, if◌then◌else◌,
}
use eacrpool.Errors.{Result, ok, err, panic}
use eacrpool.Bytes.{Bytes, put_uint32_le, hex_encode}
use eacrpool.Rat.{Rat}
use eacrpool.Difficulty.{above, of_int}
use eacrpool.ChainState.{BlockHeader}
use eacrpool.Client.{Chain}
use eacrpool.Solved.{splice}

abbrev pub max_nonce : ℕ
max_nonce = 2 ^ 32 - 1

-- What the `select` of a turn takes: nothing, the end of the context, a tick, where the monitor of the
-- hash rate is ready to receive or not, or a change of the chain.
pub data Signal : Type 0 where
  nothing done chain_update : Signal
  tick : Bool → Signal

pub record SubmitWorkData : Type 0 where
  pub n_time : Bytes
  pub nonce : Bytes
  pub extra_nonce_2 : Bytes

-- The variables of the loops; `updates` is what was sent to the monitor.
pub record Turn : Type 0 where
  pub header : Bytes
  pub extra_nonce_2 : ℕ
  pub nonce : ℕ
  pub hashes_completed : ℕ
  pub updates : List ℕ

-- `stopped` and `solved` return; `searching` has no more turns given.
pub data Outcome : Type 0 where
  stopped searching : Turn → Outcome
  solved : SubmitWorkData → Turn → Outcome

unfoldable pub first_turn : Bytes → Turn
first_turn header = record {
  header = header;
  extra_nonce_2 = 0;
  nonce = 0;
  hashes_completed = 0;
  updates = [];
}

-- `none` is the early return
unfoldable pub heed : Signal → Turn → Option Turn
heed nothing t = some t
heed done t = none
heed chain_update t = none
heed (tick true) t =
    some (record t { hashes_completed = 0; updates = t.updates ++ t.hashes_completed ∷ [] })
heed (tick false) t = some t

-- the writes of both nonces
unfoldable pub set_nonces : ℕ → ℕ → Bytes → Bytes
set_nonces nonce extra_nonce_2 header =
    splice 148 4 (put_uint32_le extra_nonce_2) (splice 140 4 (put_uint32_le nonce) header)

-- the counters of the next turn
unfoldable pub next_turn : Turn → Turn
next_turn t =
    if t.nonce == max_nonce
    then record t { nonce = 0; extra_nonce_2 = (t.extra_nonce_2 + 1) % 2 ^ 32 }
    else record t { nonce = t.nonce + 1 }

-- `header[a:a+4]` in hexadecimal
unfoldable pub word_text : ℕ → Bytes → Bytes
word_text a header = hex_encode (take 4 (drop a header))

-- `timestamp` is Timestamp.Unix of a header.
module _ (chain : Chain) (timestamp : BlockHeader → ℕ) where
  unfoldable pub work_data : BlockHeader → Bytes → SubmitWorkData
  unfolding word_text
  work_data h header = record {
    n_time = hex_encode (put_uint32_le (timestamp h));
    nonce = word_text 140 header;
    extra_nonce_2 = word_text 148 header;
  }

  -- hashNum.Cmp(target) < 0
  unfoldable pub below : Rat → BlockHeader → Bool
  unfolding above of_int
  below target h = above target (of_int (chain.hash_to_big h.block_hash))

  -- One turn, after its signal; `searching` is what the next turn starts with.
  unfoldable pub try_nonces : Rat → Turn → Result Outcome
  unfolding set_nonces next_turn work_data below
  try_nonces target t =
      let header = set_nonces t.nonce t.extra_nonce_2 t.header in
      if ltb (length t.header) 152 then panic else elim (chain.from_bytes header) [
        | none ↦ ok (stopped (record t { header = header }))
        | some h ↦
            let count = (t.hashes_completed + 1) % 2 ^ 64 in
            let tried = record t { header = header; hashes_completed = count } in
            if below target h
            then ok (
                solved (work_data h header)
                  (record tried { updates = tried.updates ++ count ∷ [] }))
            else ok (searching (next_turn tried))
      ]

  unfoldable pub solve_block : Rat → List Signal → Turn → Result Outcome
  unfolding heed try_nonces
  solve_block target [] t = ok (searching t)
  solve_block target (signal ∷ signals) t = elim (heed signal t) [
    | none ↦ ok (stopped t)
    | some heeded ↦ elim (try_nonces target heeded) [
      | err e ↦ err e
      | panic ↦ panic
      | ok (stopped u) ↦ ok (stopped u)
      | ok (solved found u) ↦ ok (solved found u)
      | ok (searching u) ↦ solve_block target signals u
    ]
  ]
