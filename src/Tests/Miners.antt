-- ===== src/Tests/Miners.antt =====
-- The CPU miner with a header whose third nonce hits, and a session that receives this header's job.
use eacrpool.Prelude.{
  ℕ, sym, ◌≡◌, refl, true, false, Option, none, some, List, [], ◌∷◌, take, drop, arith,
  if◌then◌else◌, Bool-cases, inl, inr,
}
use eacrpool.Errors.{ok}
use eacrpool.Text.{codes}
use eacrpool.Message.{Response, response, response_message, as_bool}
use eacrpool.Message.Responses.{authorize_response, parse_authorize_response}
use eacrpool.Miner.{
  Config, MinerState, new_miner, keep_alive, authenticate, subscribe_miner, method_of, or_cancel,
}
use eacrpool.Miner.Processing.{
  process_received, process_pool_response, response_to, process_authorize_response,
  take_authorization,
}
use eacrpool.Miner.Session.{IsSound}
use eacrpool.Miner.Session.Runs.{started, stepped, kept_alive, processed, miner_reach-IsSound}
use eacrpool.Tests.Wire.{wire}
use eacrpool.Bytes.{Bytes, equal, equal-eq, put_uint32_le, hex_encode, hex_digit}
use eacrpool.Strings.{repeat}
use eacrpool.Rat.{Rat}
use eacrpool.Difficulty.{pos, of_int, above}
use eacrpool.ChainState.{BlockHeader}
use eacrpool.Client.{Chain}
use eacrpool.Solved.{splice, overlay, cpu, solved_header_text}
use eacrpool.Miner.Solver.{
  Signal, nothing, tick, SubmitWorkData, Turn, solved, first_turn, heed, next_turn, set_nonces,
  word_text, work_data, below, try_nonces, solve_block,
}
use eacrpool.Miner.Solver.Pairs.{candidate, goes_on}
use eacrpool.Miner.Solver.Search.{FirstHit, hits, solve_block_ends}
use eacrpool.Miner.Solver.Agreement.{solve_block_agrees}

abbrev zero_word : Bytes
zero_word = 0 ∷ 0 ∷ 0 ∷ 0 ∷ []

-- a header of the time zero, with its nonce as its hash
abbrev header_of : Bytes → BlockHeader
header_of bytes = record {
  height = 1;
  prev_block = [];
  block_hash = take 4 (drop 140 bytes);
  bits = 0;
  rest = [];
}

unfoldable read_header : Bytes → Option BlockHeader
read_header bytes =
    if equal (take 4 (drop 136 bytes)) zero_word then some (header_of bytes) else none

-- the third nonce has the hash zero
unfoldable hash_number : Bytes → ℕ
hash_number hash = if equal hash (2 ∷ 0 ∷ 0 ∷ 0 ∷ []) then 0 else 9

abbrev chain : Chain
chain = record {
  from_bytes = read_header;
  header_bytes = λ h. none;
  hash_to_big = hash_number;
  compact_to_big = λ bits. pos 1;
}

abbrev time_zero : BlockHeader → ℕ
time_zero h = 0

abbrev job_header : Bytes
job_header = repeat 0 180

abbrev first_extra_nonce : Bytes
first_extra_nonce = 1 ∷ 2 ∷ 3 ∷ 4 ∷ []

abbrev signals : List Signal
signals = nothing ∷ tick true ∷ nothing ∷ tick false ∷ []

abbrev five : Rat
five = of_int 5

abbrev header : Bytes
header = splice 144 4 first_extra_nonce job_header

header-reads : (i : ℕ) → (h : BlockHeader) × (read_header (candidate header i) ≡ some h)
unfolding read_header set_nonces splice overlay repeat put_uint32_le equal
header-reads i = (header_of (candidate header i), refl)

solve_block_ends_example : FirstHit chain time_zero five header 0 2 signals (first_turn header)
unfolding hits below read_header hash_number set_nonces splice overlay repeat put_uint32_le equal
    above of_int goes_on
solve_block_ends_example =
    solve_block_ends chain time_zero five header signals 2 header-reads (omega arith) refl
      (omega arith) (omega arith) refl

abbrev found : SubmitWorkData
found = record {
  n_time = hex_encode zero_word;
  nonce = hex_encode (2 ∷ 0 ∷ 0 ∷ 0 ∷ []);
  extra_nonce_2 = hex_encode zero_word;
}

abbrev last_turn : Turn
last_turn = record {
  header = candidate header 2;
  extra_nonce_2 = 0;
  nonce = 2;
  hashes_completed = 2;
  updates = 1 ∷ 2 ∷ [];
}

solves : solve_block chain time_zero five signals (first_turn header) ≡ ok (solved found last_turn)
unfolding solve_block heed try_nonces next_turn first_turn work_data word_text below read_header
    hash_number set_nonces splice overlay repeat put_uint32_le equal above of_int hex_encode
    hex_digit
solves = refl

reads_time :
    (bytes : Bytes) (h : BlockHeader)
    → read_header bytes ≡ some h
    → put_uint32_le 0 ≡ take 4 (drop 136 bytes)
unfolding read_header put_uint32_le
reads_time bytes h read = elim (Bool-cases (equal (take 4 (drop 136 bytes)) zero_word)) [
  | inl zeros ↦ sym (equal-eq (take 4 (drop 136 bytes)) zero_word zeros)
  | inr others ↦ absurd (ground arith)
]

solve_block_agrees_example :
    solved_header_text
      (hex_encode job_header)
      (hex_encode first_extra_nonce)
      found.extra_nonce_2
      found.n_time
      found.nonce
      cpu
    ≡ ok (hex_encode (candidate header 2))
unfolding repeat
solve_block_agrees_example =
    solve_block_agrees chain time_zero five job_header first_extra_nonce signals last_turn found
      reads_time (omega arith) solves

abbrev config : Config
config = record {
  user = codes "w";
  address = codes "a";
  version = codes "1";
  net = record { pow_limit = 8; iterations = of_int 1 };
}

-- the response to the authorize request, which is the second one
abbrev accepted : Response wire.Float
accepted = authorize_response 2 true none

abbrev connected_miner : MinerState wire.Float
connected_miner = (keep_alive config (ok tt) (ok tt) new_miner).1

miner_reach-IsSound_example :
    IsSound
      (process_received wire chain config
        (ok (response accepted, response_message))
        connected_miner).1
miner_reach-IsSound_example = miner_reach-IsSound wire chain time_zero config (
    stepped (stepped started (kept_alive (ok tt) (ok tt)))
      (processed (ok (response accepted, response_message))))

-- the miner is authorized then
authorizes :
    (process_received wire chain config
      (ok (response accepted, response_message))
      connected_miner).1.authorized
    ≡ true
unfolding process_received process_pool_response response_to process_authorize_response
    take_authorization or_cancel parse_authorize_response authorize_response as_bool keep_alive
    authenticate subscribe_miner method_of equal
authorizes = refl
