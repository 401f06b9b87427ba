-- ===== src/Hub/Secret.antt =====
-- pool/hub.go, CSRFSecret.
use eacrpool.Prelude.{◌≡◌, none, some, arith, Option-cases, inl, inr}
use eacrpool.Errors.{Result, ok, result_cases}
use eacrpool.Bytes.{Bytes, equal_refl}
use eacrpool.Bolt.{Bolt, lookup}
use eacrpool.Db.{Db, update, put, pool_bucket}
use eacrpool.Db.Buckets.{csrf_secret}
use eacrpool.Hub.{csrf_secret_tx, fetch_csrf_secret}

-- A secret that was returned is the one that every later call returns, whatever random bytes it is
-- given, and the later call changes nothing.
fetch_csrf_secret_stable :
    {B : Bolt} (random later : Result Bytes) (d : Db B) (secret : Bytes)
    → (fetch_csrf_secret random d).0 ≡ ok secret
    → fetch_csrf_secret later (fetch_csrf_secret random d).1
      ≡ (ok secret, (fetch_csrf_secret random d).1)
unfolding fetch_csrf_secret csrf_secret_tx update pool_bucket put
fetch_csrf_secret_stable random later none secret got = absurd (ground arith)
fetch_csrf_secret_stable {B} random later (some p) secret got =
    elim (Option-cases (lookup csrf_secret (B.entries p.values))) [
      | inl new ↦ elim (result_cases random) [
        | inl (s, made) ↦
            ground
              (arith, B.lookup-store p.values csrf_secret s csrf_secret, equal_refl csrf_secret)
        | inr (inl (e, failed)) ↦ absurd (ground arith)
        | inr (inr failed) ↦ absurd (ground arith)
      ]
      | inr (v, old) ↦ ground arith
    ]
