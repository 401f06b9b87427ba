-- ===== src/Json.antt =====
-- encoding/json on a record type: the encoding of its fields. Marshal does not fail on the pool's
-- records, and Unmarshal reads back what Marshal wrote of a record whose texts are valid UTF-8.
use eacrpool.Prelude.{◌≡◌, Option, some}
use eacrpool.Bytes.{Bytes}

pub record Json (A : Type 0) : Type 0 where
  pub marshal : A → Bytes
  -- `none` is the error
  pub unmarshal : Bytes → Option A
  pub unmarshal-marshal : (a : A) → unmarshal (marshal a) ≡ some a
