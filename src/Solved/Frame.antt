-- ===== src/Solved/Frame.antt =====
-- pool/message.go, GenerateSolvedBlockHeader: the characters that a submission writes.
use eacrpool.Prelude.{
  ℕ, zero, suc, ◌+◌, ◌≤◌, ◌≡◌, refl, ap, ◌∙◌, true, ◌||◌, Bool-cases, inl, inr, [], ◌∷◌, length,
  take, drop, arith,
}
use mathlib.Core.Path.{subst}
use eacrpool.Errors.{Result, ok}
use eacrpool.Bytes.{Bytes, equal}
use eacrpool.Solved.{
  cpu, antminer_dr3, antminer_dr5, innosilicon_d9, overlay, splice, solved_text, two_nonces,
  reaches, hex_reversed, reversed_text, solved_header_text,
}

-- Both texts are the same up to `a` and from `b` on, and as long.
pub record SameAround (a b : ℕ) (s t : Bytes) : Type 0 where
  pub lengths : length t ≡ length s
  pub before : take a t ≡ take a s
  pub after : drop b t ≡ drop b s

overlay-SameAround : (n b : ℕ) (src dst : Bytes) → n ≤ b → SameAround 0 b dst (overlay n src dst)
unfolding overlay
overlay-SameAround zero b src dst h = record { lengths = refl; before = refl; after = refl }
overlay-SameAround (suc n) b [] dst h = record { lengths = refl; before = refl; after = refl }
overlay-SameAround (suc n) b (x ∷ src) [] h = record { lengths = refl; before = refl; after = refl }
overlay-SameAround (suc n) zero (x ∷ src) (y ∷ dst) h = absurd (omega arith)
overlay-SameAround (suc n) (suc b) (x ∷ src) (y ∷ dst) h =
    let rest = overlay-SameAround n b src dst (omega arith) in
    record { lengths = ap suc rest.lengths; before = refl; after = rest.after }

splice-SameAround :
    (a' a n b : ℕ) (src dst : Bytes) → a' ≤ a → a + n ≤ b → SameAround a' b dst (splice a n src dst)
unfolding splice
splice-SameAround zero zero n b src dst p q = overlay-SameAround n b src dst (omega arith)
splice-SameAround (suc a') zero n b src dst p q = absurd (omega arith)
splice-SameAround a' (suc a) n b src [] p q = record { lengths = refl; before = refl; after = refl }
splice-SameAround a' (suc a) n zero src (y ∷ dst) p q = absurd (omega arith)
splice-SameAround zero (suc a) n (suc b) src (y ∷ dst) p q =
    let rest = splice-SameAround zero a n b src dst (omega arith) (omega arith) in
    record { lengths = ap suc rest.lengths; before = refl; after = rest.after }
splice-SameAround (suc a') (suc a) n (suc b) src (y ∷ dst) p q =
    let rest = splice-SameAround a' a n b src dst (omega arith) (omega arith) in
    record { lengths = ap suc rest.lengths; before = ap (◌∷◌ y) rest.before; after = rest.after }

SameAround-trans :
    {a b : ℕ} {r s t : Bytes} → SameAround a b r s → SameAround a b s t → SameAround a b r t
SameAround-trans p q = record {
  lengths = q.lengths ∙ p.lengths;
  before = q.before ∙ p.before;
  after = q.after ∙ p.after;
}

abbrev Framed : Bytes → Bytes → Type 0
Framed = SameAround 272 312

solved_text-SameAround :
    (nonces : Bytes → Bytes) (header_e n_time nonce : Bytes)
    → ((t : Bytes) → Framed t (nonces t))
    → Framed header_e (solved_text nonces header_e n_time nonce)
unfolding solved_text
solved_text-SameAround nonces header_e n_time nonce same =
    SameAround-trans (splice-SameAround 272 272 8 312 n_time header_e (omega arith) (omega arith)) (
      SameAround-trans
        (splice-SameAround 272 280 8 312 nonce (splice 272 8 n_time header_e) (omega arith)
          (omega arith))
        (same (splice 280 8 nonce (splice 272 8 n_time header_e))))

two_nonces-SameAround : (e f t : Bytes) → Framed t (two_nonces e f t)
two_nonces-SameAround e f t =
    SameAround-trans (splice-SameAround 272 288 8 312 e t (omega arith) (omega arith))
      (splice-SameAround 272 296 8 312 f (splice 288 8 e t) (omega arith) (omega arith))

reversed_text-SameAround :
    (nonces : Bytes → Bytes) (end : ℕ) (header_e n_time nonce t : Bytes)
    → ((u : Bytes) → Framed u (nonces u))
    → reversed_text nonces end header_e n_time nonce ≡ ok t
    → Framed header_e t
unfolding reversed_text reaches
reversed_text-SameAround nonces end header_e n_time nonce t same made =
    subst (Framed header_e) (is_text (hex_reversed n_time) (hex_reversed nonce) refl refl) (
      solved_text-SameAround nonces header_e (value (hex_reversed n_time))
        (value (hex_reversed nonce)) same)
  where
    value : Result Bytes → Bytes
    value (ok b) = b
    value _ = []

    is_text :
        (r s : Result Bytes)
        → hex_reversed n_time ≡ r
        → hex_reversed nonce ≡ s
        → solved_text nonces header_e (value r) (value s) ≡ t
    is_text r s p q = ground arith

-- Where a submission gives the text of a header, whatever the miner, it is as long as the job's header
-- and has the same characters up to 272 and from 312 on.
pub solved_header_text_frame :
    (header_e extra_nonce_1 extra_nonce_2 n_time nonce miner t : Bytes)
    → solved_header_text header_e extra_nonce_1 extra_nonce_2 n_time nonce miner ≡ ok t
    → SameAround 272 312 header_e t
unfolding solved_header_text
solved_header_text_frame header_e e f n_time nonce miner t made =
    elim (Bool-cases (equal miner cpu)) [
      | inl is_cpu ↦ subst (Framed header_e) (cpu_text is_cpu) (
          solved_text-SameAround (two_nonces e f) header_e n_time nonce (two_nonces-SameAround e f))
      | inr no_cpu ↦ elim (Bool-cases (equal miner antminer_dr3 || equal miner antminer_dr5)) [
        | inl is_ant ↦
            reversed_text-SameAround (splice 288 24 f) 312 header_e n_time nonce t
              (λ u. splice-SameAround 272 288 24 312 f u (omega arith) (omega arith)) (ground arith)
        | inr no_ant ↦ elim (Bool-cases (equal miner innosilicon_d9)) [
          | inl is_d9 ↦
              reversed_text-SameAround (two_nonces e f) 304 header_e n_time nonce t
                (two_nonces-SameAround e f) (ground arith)
          | inr no_d9 ↦
              reversed_text-SameAround (splice 288 16 f) 304 header_e n_time nonce t
                (λ u. splice-SameAround 272 288 16 312 f u (omega arith) (omega arith))
                (ground arith)
        ]
      ]
    ]
  where
    cpu_text : equal miner cpu ≡ true → solved_text (two_nonces e f) header_e n_time nonce ≡ t
    cpu_text is_cpu = ground arith
