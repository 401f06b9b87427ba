-- ===== src/RateLimiter/Isolation.antt =====
-- pool/limiter.go, withinLimit and removeLimiter: the limiters of the addresses.
use eacrpool.Prelude.{
  ℕ, ◌≡◌, false, Option, none, some, arith, Option-cases, inl, inr, if◌then◌else◌,
}
use eacrpool.Errors.{ok}
use eacrpool.Bytes.{Bytes, equal}
use eacrpool.Bolt.{lookup}
use eacrpool.Map.{set_key, lookup-set_key, lookup-remove_key}
use eacrpool.RateLimiter.{
  Rate, RateLimiter, set_key, fetch_limiter, remove_limiter, limiter_of, add_request_limiter,
  limiter_or_new, within_limit,
}

module _ (R : Rate) where
  -- the limiter that a request of an address and type is judged by
  abbrev pub limiter_for : Bytes → ℕ → RateLimiter R.Limiter → Option R.Limiter
  limiter_for ip client_type r = elim (fetch_limiter ip r) [
    | some l ↦ some l
    | none ↦ limiter_of R client_type
  ]

  limiter_or_new_lem :
      (ip : Bytes) (client_type : ℕ) (r : RateLimiter R.Limiter) (l : R.Limiter)
      → limiter_for ip client_type r ≡ some l
      → (limiter_or_new R ip client_type r).0 ≡ some l
  unfolding limiter_or_new add_request_limiter fetch_limiter
  limiter_or_new_lem ip client_type r l mine = elim (Option-cases (lookup ip r)) [
    | inl new ↦ elim (Option-cases (limiter_of R client_type)) [
      | inl unknown ↦ ground arith
      | inr (m, known) ↦ ground arith
    ]
    | inr (m, old) ↦ ground arith
  ]

  fetch_limiter-limiter_or_new :
      (ip : Bytes) (client_type : ℕ) (r : RateLimiter R.Limiter) (j : Bytes)
      → equal ip j ≡ false
      → fetch_limiter j (limiter_or_new R ip client_type r).1 ≡ fetch_limiter j r
  unfolding limiter_or_new add_request_limiter fetch_limiter
  fetch_limiter-limiter_or_new ip client_type r j other = elim (Option-cases (lookup ip r)) [
    | inl new ↦ elim (Option-cases (limiter_of R client_type)) [
      | inl unknown ↦ ground arith
      | inr (m, known) ↦ ground (arith, lookup-set_key j ip m r)
    ]
    | inr (m, old) ↦ ground arith
  ]

  -- A request is judged by the address's own limiter, or by a new one of its client type where there is
  -- none; that limiter is kept less the token, and every other address keeps its limiter. Where the
  -- limiter is removed afterwards, the address has none and the others still keep theirs.
  pub within_limit_isolated :
      (ip : Bytes) (client_type : ℕ) (r : RateLimiter R.Limiter) (l : R.Limiter)
      → limiter_for ip client_type r ≡ some l
      → let (allowed, r') = within_limit R ip client_type r in
        (allowed ≡ ok (R.allow l).0)
        × ((j : Bytes)
            → fetch_limiter j r' ≡ (if equal ip j then some (R.allow l).1 else fetch_limiter j r))
        × ((j : Bytes)
            → fetch_limiter j (remove_limiter ip r')
              ≡ (if equal ip j then none else fetch_limiter j r))
  unfolding within_limit fetch_limiter remove_limiter
  within_limit_isolated ip client_type r l mine =
      let found = limiter_or_new_lem ip client_type r l mine in
      let others = fetch_limiter-limiter_or_new ip client_type r in
      let r' = (limiter_or_new R ip client_type r).1 in
      let kept = set_key ip (R.allow l).1 r' in
      (
        ground arith,
        λ j. ground (arith, others j, lookup-set_key j ip (R.allow l).1 r'),
        λ j.
            ground
              (arith, others j, lookup-set_key j ip (R.allow l).1 r', lookup-remove_key j ip kept),
      )
