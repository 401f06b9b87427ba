-- ===== src/Solved/Reversal.antt =====
-- pool/client.go, hexReversed and reversePrevBlockWords.
use eacrpool.Prelude.{
  ℕ, zero, suc, ◌+◌, ◌%◌, ◌/◌, ◌≡◌, refl, sym, ap, ◌∙◌, inl, inr, [], ◌∷◌, ◌++◌, reverse, length,
  length-append, arith,
}
use mathlib.Core.List.{reverse-append, reverse-cons}
use mathlib.Core.Path.{subst}
use eacrpool.Errors.{ok, result_cases}
use eacrpool.Bytes.{Bytes, hex_encode, hex_digit}
use eacrpool.Bytes.Codec.{length-hex_encode, hex_encode-append}
use eacrpool.Solved.{reversed_pairs, hex_reversed, reverse_prev_block_words}

length-reverse : (xs : Bytes) → length (reverse xs) ≡ length xs
length-reverse [] = refl
length-reverse (x ∷ xs) =
    rw (reverse-cons x xs) (ground (arith, length-append (reverse xs) (x ∷ []), length-reverse xs))

-- the last pair of an even number of characters comes first
reversed_pairs-append :
    (n : ℕ) (xs : Bytes) (a b : ℕ)
    → length xs ≡ n + n
    → reversed_pairs (xs ++ b ∷ a ∷ []) ≡ reversed_pairs xs ++ a ∷ b ∷ []
unfolding reversed_pairs
reversed_pairs-append n [] a b h = refl
reversed_pairs-append n (x ∷ []) a b h = absurd (omega arith)
reversed_pairs-append zero (x ∷ y ∷ xs) a b h = absurd (omega arith)
reversed_pairs-append (suc n) (x ∷ y ∷ xs) a b h =
    ap (λ t. y ∷ x ∷ t) (reversed_pairs-append n xs a b (omega arith))

reversed_pairs-hex_encode :
    (bs : Bytes) → reversed_pairs (reverse (hex_encode bs)) ≡ hex_encode (reverse bs)
unfolding reversed_pairs hex_encode
reversed_pairs-hex_encode [] = refl
reversed_pairs-hex_encode (b ∷ bs) =
    let hi = hex_digit (b / 16) in
    let lo = hex_digit (b % 16) in
    let text = hex_encode bs in
    ap reversed_pairs (reverse-append (hi ∷ lo ∷ []) text)
    ∙ reversed_pairs-append (length bs) (reverse text) hi lo
        (length-reverse text ∙ length-hex_encode bs ∙ omega arith)
    ∙ ap (λ t. t ++ hi ∷ lo ∷ []) (reversed_pairs-hex_encode bs)
    ∙ sym (hex_encode-append (reverse bs) (b ∷ []))
    ∙ ap hex_encode (sym (reverse-append (b ∷ []) bs))

-- hexReversed of the text of bytes is the text of the bytes reversed.
pub hex_reversed-hex_encode :
    (bs : Bytes) → hex_reversed (hex_encode bs) ≡ ok (hex_encode (reverse bs))
unfolding hex_reversed
hex_reversed-hex_encode bs = ground (arith, length-hex_encode bs, reversed_pairs-hex_encode bs)

-- Where a block hash has whole words, reversing their bytes twice gives the hash back.
pub reverse_prev_block_words_involutive :
    (s t : Bytes) → reverse_prev_block_words s ≡ ok t → reverse_prev_block_words t ≡ ok s
unfolding reverse_prev_block_words
reverse_prev_block_words_involutive [] t made = ground arith
reverse_prev_block_words_involutive (a ∷ b ∷ c ∷ d ∷ e ∷ f ∷ g ∷ h ∷ rest) t made =
    elim (result_cases (reverse_prev_block_words rest)) [
      | inl (words, some_words) ↦
          let back = reverse_prev_block_words_involutive rest words some_words in
          let whole = whole_words words some_words in
          subst (λ u. reverse_prev_block_words u ≡ ok (a ∷ b ∷ c ∷ d ∷ e ∷ f ∷ g ∷ h ∷ rest)) whole
            (rw back refl)
      | inr (inl (x, failed)) ↦ absurd (ground arith)
      | inr (inr failed) ↦ absurd (ground arith)
    ]
  where
    whole_words :
        (words : Bytes)
        → reverse_prev_block_words rest ≡ ok words
        → g ∷ h ∷ e ∷ f ∷ c ∷ d ∷ a ∷ b ∷ words ≡ t
    whole_words words some_words = ground arith
reverse_prev_block_words_involutive _ t made = absurd (ground arith)
