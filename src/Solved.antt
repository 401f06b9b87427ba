-- ===== src/Solved.antt =====
-- pool/message.go: the block header that a submission solves, and pool/client.go: reversals of the
-- hexadecimal fields.
pub mod Reversal
pub mod Frame
pub mod Splice
use eacrpool.Prelude.{
  ℕ, zero, suc, ◌%◌, ◌==◌, ltb, Bool, true, false, not, ◌||◌, Option, none, some, List, [], ◌∷◌,
  ◌++◌, reverse, length, if◌then◌else◌,
}
use eacrpool.Errors.{
  Result, ok, err, panic, make_error, other, decode, wrong_input_length, ◌>>=◌, ◌>>◌,
}
use eacrpool.Bytes.{Bytes, equal, hex_decode}
use eacrpool.Text.{codes}
use eacrpool.Strings.{repeat}
use eacrpool.ChainState.{BlockHeader}

abbrev pub cpu : Bytes
cpu = codes "cpu"

abbrev pub innosilicon_d9 : Bytes
innosilicon_d9 = codes "innosilicond9"

abbrev pub antminer_dr3 : Bytes
antminer_dr3 = codes "antminerdr3"

abbrev pub antminer_dr5 : Bytes
antminer_dr5 = codes "antminerdr5"

abbrev pub whatsminer_d1 : Bytes
whatsminer_d1 = codes "whatsminerd1"

-- The loop of hexReversed, over the characters from the last to the first.
unfoldable pub reversed_pairs : Bytes → Bytes
reversed_pairs (x ∷ y ∷ rest) = y ∷ x ∷ reversed_pairs rest
reversed_pairs _ = []

unfoldable pub hex_reversed : Bytes → Result Bytes
hex_reversed input =
    if not (length input % 2 == 0)
    then err (make_error wrong_input_length)
    else ok (reversed_pairs (reverse input))

-- The loop of reversePrevBlockWords; a slice past the end panics.
unfoldable pub reverse_prev_block_words : Bytes → Result Bytes
reverse_prev_block_words [] = ok []
reverse_prev_block_words (a ∷ b ∷ c ∷ d ∷ e ∷ f ∷ g ∷ h ∷ rest) =
    elim (reverse_prev_block_words rest) [
      | err x ↦ err x
      | panic ↦ panic
      | ok words ↦ ok (g ∷ h ∷ e ∷ f ∷ c ∷ d ∷ a ∷ b ∷ words)
    ]
reverse_prev_block_words _ = panic

-- `copy(dst[:n], src)`
unfoldable pub overlay : ℕ → Bytes → Bytes → Bytes
overlay zero src dst = dst
overlay (suc n) [] dst = dst
overlay (suc n) (x ∷ src) [] = []
overlay (suc n) (x ∷ src) (y ∷ dst) = x ∷ overlay n src dst

-- `copy(dst[a:a+n], src)`, for a `dst` that is long enough
unfoldable pub splice : ℕ → ℕ → Bytes → Bytes → Bytes
unfolding overlay
splice zero n src dst = overlay n src dst
splice (suc a) n src [] = []
splice (suc a) n src (y ∷ dst) = y ∷ splice a n src dst

-- The header's characters with those of the submission: `n_time` and `nonce` at 272 and 280, and
-- `nonces` are the writes of the extra nonces from 288 on.
unfoldable pub solved_text : (Bytes → Bytes) → Bytes → Bytes → Bytes → Bytes
solved_text nonces header_e n_time nonce =
    nonces (splice 280 8 nonce (splice 272 8 n_time header_e))

-- A slice of the header up to `n`; a header that is shorter is taken to panic.
unfoldable pub reaches : ℕ → Bytes → Result (Unit {0})
reaches n header_e = if ltb (length header_e) n then panic else ok tt

-- what the branches of the mining machines share
unfoldable pub reversed_text : (Bytes → Bytes) → ℕ → Bytes → Bytes → Bytes → Result Bytes
reversed_text nonces end header_e n_time nonce = do
  n_time_rev ← hex_reversed n_time
  reaches 280 header_e
  nonce_rev ← hex_reversed nonce
  reaches end header_e
  ok (solved_text nonces header_e n_time_rev nonce_rev)

abbrev pub two_nonces : Bytes → Bytes → Bytes → Bytes
two_nonces extra_nonce_1 extra_nonce_2 text =
    splice 296 8 extra_nonce_2 (splice 288 8 extra_nonce_1 text)

-- GenerateSolvedBlockHeader up to the decoding
unfoldable pub solved_header_text : Bytes → Bytes → Bytes → Bytes → Bytes → Bytes → Result Bytes
solved_header_text header_e extra_nonce_1 extra_nonce_2 n_time nonce miner =
    if equal miner cpu
    then (do
      reaches 304 header_e
      ok (solved_text (two_nonces extra_nonce_1 extra_nonce_2) header_e n_time nonce))
    else if equal miner antminer_dr3 || equal miner antminer_dr5
    then reversed_text (splice 288 24 extra_nonce_2) 312 header_e n_time nonce
    else if equal miner innosilicon_d9
    then reversed_text (two_nonces extra_nonce_1 extra_nonce_2) 304 header_e n_time nonce
    else if equal miner whatsminer_d1
    then reversed_text (splice 288 16 extra_nonce_2) 304 header_e n_time nonce
    else err (make_error other)

-- GenerateSolvedBlockHeader; `from_bytes` is wire's reading of a header, and its failure a decode
-- error.
unfoldable pub generate_solved_block_header :
    (Bytes → Option BlockHeader)
    → Bytes
    → Bytes
    → Bytes
    → Bytes
    → Bytes
    → Bytes
    → Result BlockHeader
generate_solved_block_header from_bytes header_e extra_nonce_1 extra_nonce_2 n_time nonce miner =
    elim (solved_header_text header_e extra_nonce_1 extra_nonce_2 n_time nonce miner) [
      | err e ↦ err e
      | panic ↦ panic
      | ok text ↦ elim (hex_decode text) [
        | none ↦ err (make_error decode)
        | some bytes ↦ elim (from_bytes bytes) [ none ↦ err (make_error decode) | some h ↦ ok h ]
      ]
    ]

-- GenerateBlockHeader, whose failure of `from_bytes` has another code
unfoldable pub generate_block_header :
    (Bytes → Option BlockHeader) → Bytes → Bytes → Bytes → Bytes → Bytes → Result BlockHeader
unfolding repeat
generate_block_header from_bytes block_version prev_block gen_tx1 extra_nonce_1 gen_tx2 =
    elim (hex_decode
      (block_version ++ prev_block ++ gen_tx1 ++ extra_nonce_1 ++ repeat 48 56 ++ gen_tx2)) [
        | none ↦ err (make_error decode)
        | some bytes ↦ elim (from_bytes bytes) [ none ↦ err (make_error other) | some h ↦ ok h ]
      ]
