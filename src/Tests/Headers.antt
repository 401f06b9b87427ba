-- ===== src/Tests/Headers.antt =====
-- A submission of a CPU miner against a header of zeros.
use eacrpool.Prelude.{ℕ, zero, suc, refl, [], ◌∷◌}
use eacrpool.Bytes.{Bytes, equal}
use eacrpool.Text.{codes}
use eacrpool.Solved.{cpu, solved_text, two_nonces, reaches, solved_header_text}
use eacrpool.Solved.Frame.{SameAround, solved_header_text_frame}

-- so many zeros in hexadecimal
abbrev zeros : ℕ → Bytes
zeros zero = []
zeros (suc n) = 48 ∷ zeros n

abbrev solved : Bytes
solved =
    solved_text (two_nonces (codes "11111111") (codes "22222222")) (zeros 360) (codes "33333333")
      (codes "44444444")

solved_header_text_frame_example : SameAround 272 312 (zeros 360) solved
unfolding solved_header_text reaches equal
solved_header_text_frame_example =
    solved_header_text_frame (zeros 360) (codes "11111111") (codes "22222222") (codes "33333333")
      (codes "44444444") cpu solved refl
