-- ===== src/Solved/Splice.antt =====
-- pool/message.go and cmd/miner/cpuminer.go: copies into parts of a header.
use eacrpool.Prelude.{ℕ, zero, suc, ◌+◌, ◌≤◌, ◌≡◌, refl, ap, [], ◌∷◌, length, take, drop, arith}
use eacrpool.Bytes.{Bytes, hex_encode}
use eacrpool.Solved.{overlay, splice}

length-overlay : (n : ℕ) (src dst : Bytes) → length (overlay n src dst) ≡ length dst
unfolding overlay
length-overlay zero src dst = refl
length-overlay (suc n) [] dst = refl
length-overlay (suc n) (x ∷ src) [] = refl
length-overlay (suc n) (x ∷ src) (y ∷ dst) = ap suc (length-overlay n src dst)

pub length-splice : (a n : ℕ) (src dst : Bytes) → length (splice a n src dst) ≡ length dst
unfolding splice
length-splice zero n src dst = length-overlay n src dst
length-splice (suc a) n src [] = refl
length-splice (suc a) n src (y ∷ dst) = ap suc (length-splice a n src dst)

overlay-overlay :
    (n : ℕ) (new old dst : Bytes)
    → length new ≡ length old
    → overlay n new (overlay n old dst) ≡ overlay n new dst
unfolding overlay
overlay-overlay zero new old dst h = refl
overlay-overlay (suc n) [] [] dst h = refl
overlay-overlay (suc n) [] (x ∷ old) dst h = absurd (omega arith)
overlay-overlay (suc n) (w ∷ new) [] dst h = absurd (omega arith)
overlay-overlay (suc n) (w ∷ new) (x ∷ old) [] h = refl
overlay-overlay (suc n) (w ∷ new) (x ∷ old) (y ∷ dst) h =
    ap (◌∷◌ w) (overlay-overlay n new old dst (omega arith))

-- A copy over one of the same length is as if the first had not been.
pub splice-splice :
    (a n : ℕ) (new old dst : Bytes)
    → length new ≡ length old
    → splice a n new (splice a n old dst) ≡ splice a n new dst
unfolding splice
splice-splice zero n new old dst h = overlay-overlay n new old dst h
splice-splice (suc a) n new old [] h = refl
splice-splice (suc a) n new old (y ∷ dst) h = ap (◌∷◌ y) (splice-splice a n new old dst h)

overlay-splice :
    (n b m : ℕ) (src other dst : Bytes)
    → n ≤ b
    → overlay n src (splice b m other dst) ≡ splice b m other (overlay n src dst)
unfolding overlay splice
overlay-splice zero b m src other dst h = refl
overlay-splice (suc n) zero m src other dst h = absurd (omega arith)
overlay-splice (suc n) (suc b) m [] other dst h = refl
overlay-splice (suc n) (suc b) m (x ∷ src) other [] h = refl
overlay-splice (suc n) (suc b) m (x ∷ src) other (y ∷ dst) h =
    ap (◌∷◌ x) (overlay-splice n b m src other dst (omega arith))

-- Copies into parts that do not meet can be swapped.
pub splice_swap :
    (a n b m : ℕ) (src other dst : Bytes)
    → a + n ≤ b
    → splice a n src (splice b m other dst) ≡ splice b m other (splice a n src dst)
unfolding splice
splice_swap zero n b m src other dst h = overlay-splice n b m src other dst (omega arith)
splice_swap (suc a) n zero m src other dst h = absurd (omega arith)
splice_swap (suc a) n (suc b) m src other [] h = refl
splice_swap (suc a) n (suc b) m src other (y ∷ dst) h =
    ap (◌∷◌ y) (splice_swap a n b m src other dst (omega arith))

double_suc : (n : ℕ) → suc n + suc n ≡ suc (suc (n + n))
double_suc n = omega arith

hex_encode-overlay :
    (n : ℕ) (src dst : Bytes)
    → hex_encode (overlay n src dst) ≡ overlay (n + n) (hex_encode src) (hex_encode dst)
unfolding overlay hex_encode
hex_encode-overlay zero src dst = refl
hex_encode-overlay (suc n) [] dst = rw (double_suc n) refl
hex_encode-overlay (suc n) (x ∷ src) [] = rw (double_suc n) refl
hex_encode-overlay (suc n) (x ∷ src) (y ∷ dst) =
    rw (double_suc n, hex_encode-overlay n src dst) refl

-- The text of a copy is a copy of the text.
pub hex_encode-splice :
    (a n : ℕ) (src dst : Bytes)
    → hex_encode (splice a n src dst) ≡ splice (a + a) (n + n) (hex_encode src) (hex_encode dst)
unfolding splice hex_encode
hex_encode-splice zero n src dst = hex_encode-overlay n src dst
hex_encode-splice (suc a) n src [] = rw (double_suc a) refl
hex_encode-splice (suc a) n src (y ∷ dst) = rw (double_suc a, hex_encode-splice a n src dst) refl

overlay_back : (n : ℕ) (dst : Bytes) → overlay n (take n dst) dst ≡ dst
unfolding overlay
overlay_back zero dst = refl
overlay_back (suc n) [] = refl
overlay_back (suc n) (y ∷ dst) = ap (◌∷◌ y) (overlay_back n dst)

-- A copy of what stands there changes nothing.
pub splice_back : (a n : ℕ) (dst : Bytes) → splice a n (take n (drop a dst)) dst ≡ dst
unfolding splice
splice_back zero n dst = overlay_back n dst
splice_back (suc a) n [] = refl
splice_back (suc a) n (y ∷ dst) = ap (◌∷◌ y) (splice_back a n dst)

take-overlay :
    (n : ℕ) (src dst : Bytes) → length src ≡ n → n ≤ length dst → take n (overlay n src dst) ≡ src
unfolding overlay
take-overlay zero [] dst h long = refl
take-overlay zero (x ∷ src) dst h long = absurd (omega arith)
take-overlay (suc n) [] dst h long = absurd (omega arith)
take-overlay (suc n) (x ∷ src) [] h long = absurd (omega arith)
take-overlay (suc n) (x ∷ src) (y ∷ dst) h long =
    ap (◌∷◌ x) (take-overlay n src dst (omega arith) (omega arith))

-- What was copied can be read again.
pub take-drop-splice :
    (a n : ℕ) (src dst : Bytes)
    → length src ≡ n
    → a + n ≤ length dst
    → take n (drop a (splice a n src dst)) ≡ src
unfolding splice
take-drop-splice zero n src dst h long = take-overlay n src dst h (omega arith)
take-drop-splice (suc a) n src [] h long = absurd (omega arith)
take-drop-splice (suc a) n src (y ∷ dst) h long = take-drop-splice a n src dst h (omega arith)

take-splice : (n b m : ℕ) (src dst : Bytes) → n ≤ b → take n (splice b m src dst) ≡ take n dst
unfolding splice
take-splice zero b m src dst h = refl
take-splice (suc n) zero m src dst h = absurd (omega arith)
take-splice (suc n) (suc b) m src [] h = refl
take-splice (suc n) (suc b) m src (y ∷ dst) h = ap (◌∷◌ y) (take-splice n b m src dst (omega arith))

-- What stands before a copy is read as it was.
pub take-drop-splice_after :
    (a n b m : ℕ) (src dst : Bytes)
    → a + n ≤ b
    → take n (drop a (splice b m src dst)) ≡ take n (drop a dst)
unfolding splice
take-drop-splice_after zero n b m src dst h = take-splice n b m src dst (omega arith)
take-drop-splice_after (suc a) n zero m src dst h = absurd (omega arith)
take-drop-splice_after (suc a) n (suc b) m src [] h = refl
take-drop-splice_after (suc a) n (suc b) m src (y ∷ dst) h =
    take-drop-splice_after a n b m src dst (omega arith)
