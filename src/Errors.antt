-- ===== src/Errors.antt =====
-- pool/error.go: error codes, and the outcome of a call that may fail or panic.
use eacrpool.Prelude.{refl, ◌≡◌, ◌⊎◌, inl, inr, ℕ, Bool, false, ◌==◌}

pub data ErrorCode : Type 0 where
  value_not_found bucket_not_found bucket_create db_open work_exists work_not_found : ErrorCode
  wrong_input_length difficulty_not_found calc_pool_target parse decode : ErrorCode
  not_supported divide_by_zero db_upgrade other : ErrorCode

-- the constant's value, as `iota` gives it
abbrev pub code : ErrorCode → ℕ
code value_not_found = 0
code bucket_not_found = 1
code bucket_create = 2
code db_open = 3
code work_exists = 4
code work_not_found = 5
code wrong_input_length = 6
code difficulty_not_found = 7
code calc_pool_target = 8
code parse = 9
code decode = 10
code not_supported = 11
code divide_by_zero = 12
code db_upgrade = 13
code other = 14

-- A value of Go's `error`: one made by `MakeError` (its texts are left out), or one of another
-- package.
pub data Error : Type 0 where
  pool_error : ErrorCode → Error
  foreign : Error

abbrev pub make_error : ErrorCode → Error
make_error c = pool_error c

unfoldable pub is_error : Error → ErrorCode → Bool
is_error (pool_error e) c = code e == code c
is_error foreign c = false

-- What a call returns: a value, a non-nil error, or a panic (a use of a nil pointer).
pub data Result {ℓ} (A : Type ℓ) : Type ℓ where
  ok : A → Result A
  err : Error → Result A
  panic : Result A

infixl 5 ◌>>=◌ ◌>>◌
abbrev pub ◌>>=◌ {ℓ κ} : {A : Type ℓ} {B : Type κ} → Result A → (A → Result B) → Result B
ok a >>= f = f a
err e >>= f = err e
panic >>= f = panic

abbrev pub ◌>>◌ {ℓ κ} : {A : Type ℓ} {B : Type κ} → Result A → Result B → Result B
m >> k = m >>= λ _. k

pub result_cases {ℓ} :
    {A : Type ℓ}
    → (r : Result A) → ((a : A) × (r ≡ ok a)) ⊎ ((e : Error) × (r ≡ err e)) ⊎ (r ≡ panic)
result_cases (ok a) = inl (a, refl)
result_cases (err e) = inr (inl (e, refl))
result_cases panic = inr (inr refl)
