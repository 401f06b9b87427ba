-- ===== src/Tests/Services.antt =====
-- A purge of the small store, and a limiter that counts its tokens.
use eacrpool.Prelude.{
  ℕ, zero, suc, ◌≡◌, refl, Bool, true, false, none, some, [], ◌∷◌, if◌then◌else◌,
}
use eacrpool.Errors.{ok}
use eacrpool.Bytes.{Bytes, equal}
use eacrpool.Bolt.{lookup}
use eacrpool.Db.{BucketName, PoolBkt, fetch_bucket}
use eacrpool.Db.Prune.{member}
use eacrpool.Db.Buckets.{purge}
use eacrpool.Db.Purged.{purged_keys, purge_exact}
use eacrpool.RateLimiter.{
  Rate, RateLimiter, fetch_limiter, remove_limiter, limiter_of, within_limit, pool_client,
}
use eacrpool.RateLimiter.Isolation.{within_limit_isolated}
use eacrpool.Tests.Store.{store}
use eacrpool.Tests.Fixtures.{pool, filled, only_jobs}

abbrev some_jobs : PoolBkt store
some_jobs = pool (only_jobs ((49 ∷ [], 50 ∷ []) ∷ []))

purge_exact_example :
    let (r, d) = purge (some some_jobs) in
    (r ≡ ok tt)
    × ((n : BucketName) → fetch_bucket n d ≡ ok store.empty)
    × ((q : PoolBkt store) × (d ≡ some q)
        × ((k : Bytes)
            → lookup k (store.entries q.values)
              ≡ (if member k purged_keys then none else lookup k (store.entries some_jobs.values))))
unfolding fetch_bucket
purge_exact_example =
    purge_exact some_jobs (λ n. (filled (only_jobs ((49 ∷ [], 50 ∷ []) ∷ []) n), refl))

-- a limiter that has as many tokens as its burst, and gets no new ones
abbrev take_token : ℕ → Bool × ℕ
take_token zero = (false, zero)
take_token (suc n) = (true, n)

abbrev tokens : Rate
tokens = record { Limiter = ℕ; new_limiter = λ rate burst. burst; allow = take_token }

abbrev busy : RateLimiter ℕ
busy = (97 ∷ [], 0) ∷ []

within_limit_isolated_example :
    let (allowed, r) = within_limit tokens (98 ∷ []) pool_client busy in
    (allowed ≡ ok true)
    × ((j : Bytes)
        → fetch_limiter j r ≡ (if equal (98 ∷ []) j then some 4 else fetch_limiter j busy))
    × ((j : Bytes)
        → fetch_limiter j (remove_limiter (98 ∷ []) r)
          ≡ (if equal (98 ∷ []) j then none else fetch_limiter j busy))
unfolding fetch_limiter limiter_of lookup equal
within_limit_isolated_example = within_limit_isolated tokens (98 ∷ []) pool_client busy 5 refl
