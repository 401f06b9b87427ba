-- ===== src/RateLimiter.antt =====
-- pool/limiter.go: the request limiters of the connected clients.
pub mod Isolation
use eacrpool.Prelude.{ℕ, ◌==◌, Bool, Option, none, some, List, [], if◌then◌else◌}
use eacrpool.Errors.{Result, ok, panic}
use eacrpool.Bytes.{Bytes}
use eacrpool.Bolt.{lookup}
use eacrpool.Map.{set_key, remove_key}

-- golang.org/x/time/rate: a limiter with its rate and burst, and Allow, which may take a token.
pub record Rate : Type 1 where
  pub Limiter : Type 0
  pub new_limiter : ℕ → ℕ → Limiter
  pub allow : Limiter → Bool × Limiter

-- the client types
abbrev pub api_client : ℕ
api_client = 0

abbrev pub pool_client : ℕ
pool_client = 1

abbrev pub client_token_rate : ℕ
client_token_rate = 5

abbrev pub client_burst : ℕ
client_burst = 5

abbrev pub api_token_rate : ℕ
api_token_rate = 3

abbrev pub api_burst : ℕ
api_burst = 3

-- A Go map from the address to the limiter.
abbrev pub RateLimiter : Type 0 → Type 0
RateLimiter L = List (Bytes × L)

module _ {L : Type 0} where
  abbrev pub new_rate_limiter : RateLimiter L
  new_rate_limiter = []

  unfoldable pub fetch_limiter : Bytes → RateLimiter L → Option L
  fetch_limiter ip r = lookup ip r

  unfoldable pub remove_limiter : Bytes → RateLimiter L → RateLimiter L
  remove_limiter ip r = remove_key ip r

module _ (R : Rate) where
  -- the limiter of a client type; an unknown type has none
  unfoldable pub limiter_of : ℕ → Option R.Limiter
  limiter_of client_type =
      if client_type == api_client
      then some (R.new_limiter api_token_rate api_burst)
      else if client_type == pool_client
      then some (R.new_limiter client_token_rate client_burst)
      else none

  -- The limiter that was added, or nil.
  unfoldable pub add_request_limiter :
      Bytes → ℕ → RateLimiter R.Limiter → Option R.Limiter × RateLimiter R.Limiter
  unfolding limiter_of set_key
  add_request_limiter ip client_type r = elim (limiter_of client_type) [
    | none ↦ (none, r)
    | some l ↦ (some l, set_key ip l r)
  ]

  unfoldable pub limiter_or_new :
      Bytes → ℕ → RateLimiter R.Limiter → Option R.Limiter × RateLimiter R.Limiter
  unfolding fetch_limiter add_request_limiter
  limiter_or_new ip client_type r = elim (fetch_limiter ip r) [
    | some l ↦ (some l, r)
    | none ↦ add_request_limiter ip client_type r
  ]

  -- The limiter is shared with the table, so the token that Allow takes is gone from the table's; Allow
  -- of a nil limiter panics.
  unfoldable pub within_limit :
      Bytes → ℕ → RateLimiter R.Limiter → Result Bool × RateLimiter R.Limiter
  unfolding limiter_or_new set_key
  within_limit ip client_type r =
      let (found, r') = limiter_or_new ip client_type r in
      elim found [
        | none ↦ (panic, r')
        | some l ↦ let (allowed, l') = R.allow l in (ok allowed, set_key ip l' r')
      ]
