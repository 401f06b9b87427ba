-- ===== src/Message/Responses.antt =====
-- pool/message.go: the responses to authorize, subscribe and submit requests, and their parsers.
use eacrpool.Prelude.{ℕ, Bool, Option, none, some, [], ◌∷◌}
use eacrpool.Errors.{Result, ok, err, make_error, parse, ◌>>=◌}
use eacrpool.Bytes.{Bytes}
use eacrpool.Message.{
  Value, Values, Wire, null, bool, number, text, array, uint, text_lists, empty, item, StratumError,
  Response, set_difficulty, notify, as_bool, as_array, at_index,
}
use eacrpool.Message.Requests.{text_at}

module _ {F : Type 0} where
  unfoldable pub authorize_response : ℕ → Bool → Option StratumError → Response F
  authorize_response id status error = record { id = id; error = error; result = bool status }

  unfoldable pub parse_authorize_response : Response F → Result (Bool × Option StratumError)
  parse_authorize_response resp = do status ← as_bool resp.result; ok (status, resp.error)

  unfoldable pub subscribe_response : ℕ → Bytes → Bytes → ℕ → Option StratumError → Response F
  subscribe_response id notify_id extra_nonce_1 size (some e) = record {
    id = id;
    error = some e;
    result = null;
  }
  subscribe_response id notify_id extra_nonce_1 size none = record {
    id = id;
    error = none;
    result = array (
        item (text_lists ((set_difficulty ∷ notify_id ∷ []) ∷ (notify ∷ notify_id ∷ []) ∷ []))
          (item (text extra_nonce_1) (item (uint size) empty)));
  }

  unfoldable pub submit_work_response : ℕ → Bool → Option StratumError → Response F
  submit_work_response id status error = record { id = id; error = error; result = bool status }

  unfoldable pub parse_submit_work_response : Response F → Result (Bool × Option StratumError)
  parse_submit_work_response resp = do status ← as_bool resp.result; ok (status, resp.error)

  -- `v.(float64)`, where a failure is answered with a parse error
  unfoldable pub as_number : Value F → Result F
  as_number (number x) = ok x
  as_number _ = err (make_error parse)

  -- the array at an index
  unfoldable pub array_at : ℕ → Values F → Result (Values F)
  array_at i vs = do v ← at_index i vs; as_array v

module _ (W : Wire) where
  -- the id of the difficulty, the id of the work, the first extra nonce and the size of the second
  unfoldable pub parse_subscribe_response : Response W.Float → Result (Bytes × Bytes × Bytes × ℕ)
  unfolding text_at array_at
  parse_subscribe_response resp = elim resp.error [
    | some e ↦ err (make_error parse)
    | none ↦ do
      res ← as_array resp.result
      subs ← array_at 0 res
      diff ← array_at 0 subs
      diff_id ← text_at 1 diff
      work ← array_at 1 subs
      notify_id ← text_at 1 work
      extra_nonce_1 ← text_at 1 res
      v ← at_index 2 res
      size ← as_number v
      ok (diff_id, notify_id, extra_nonce_1, W.to_uint size)
  ]
