-- ===== src/Message/Requests.antt =====
-- pool/message.go: AuthorizeRequest, SubscribeRequest and SubmitWorkRequest, and their parsers.
use eacrpool.Prelude.{ℕ, ◌==◌, Option, [], ◌∷◌, ◌++◌, if◌then◌else◌}
use eacrpool.Errors.{Result, ok, err, make_error, parse, ◌>>=◌, ◌>>◌}
use eacrpool.Bytes.{Bytes, equal}
use eacrpool.Text.{codes}
use eacrpool.Message.{
  Values, texts, Request, authorize, subscribe, submit, as_text, as_array, at_index, length_of,
  check_method,
}

module _ {F : Type 0} where
  -- the user is `address.name`
  unfoldable pub authorize_request : Option ℕ → Bytes → Bytes → Request F
  authorize_request id name address = record {
    id = id;
    method = authorize;
    params = texts ((address ++ codes "." ++ name) ∷ [] ∷ []);
  }

  unfoldable pub parse_authorize_request : Request F → Result Bytes
  parse_authorize_request req = do
    check_method authorize req
    auth ← as_array req.params
    user ← at_index 0 auth
    as_text user

  unfoldable pub subscribe_request : Option ℕ → Bytes → Bytes → Bytes → Request F
  subscribe_request id user_agent version notify_id =
      let agent = user_agent ++ codes "/" ++ version in
      record {
        id = id;
        method = subscribe;
        params = if equal notify_id [] then texts (agent ∷ []) else texts (agent ∷ notify_id ∷ []);
      }

  -- the id of a subscription, where exactly two parameters are given
  unfoldable pub subscription_id : Values F → Result Bytes
  subscription_id params =
      if length_of params == 2 then (do v ← at_index 1 params; as_text v) else ok []

  -- an error where there are no parameters
  unfoldable pub check_agent : Values F → Result (Unit {0})
  check_agent params = if length_of params == 0 then err (make_error parse) else ok tt

  -- the miner and the subscription id
  unfoldable pub parse_subscribe_request : Request F → Result (Bytes × Bytes)
  unfolding subscription_id check_agent
  parse_subscribe_request req = do
    check_method subscribe req
    params ← as_array req.params
    check_agent params
    v ← at_index 0 params
    miner ← as_text v
    id ← subscription_id params
    ok (miner, id)

  unfoldable pub submit_work_request : Option ℕ → Bytes → Bytes → Bytes → Bytes → Bytes → Request F
  submit_work_request id worker_name job_id extra_nonce_2 n_time nonce = record {
    id = id;
    method = submit;
    params = texts (worker_name ∷ job_id ∷ extra_nonce_2 ∷ n_time ∷ nonce ∷ []);
  }

  -- `params[i].(string)`
  unfoldable pub text_at : ℕ → Values F → Result Bytes
  text_at i params = do v ← at_index i params; as_text v

  -- The worker's name, the job's id, the second extra nonce, the time and the nonce; the `miner` that
  -- the source passes is not used.
  unfoldable pub parse_submit_work_request :
      Request F → Result (Bytes × Bytes × Bytes × Bytes × Bytes)
  unfolding text_at
  parse_submit_work_request req = do
    check_method submit req
    params ← as_array req.params
    worker_name ← text_at 0 params
    job_id ← text_at 1 params
    extra_nonce_2 ← text_at 2 params
    n_time ← text_at 3 params
    nonce ← text_at 4 params
    ok (worker_name, job_id, extra_nonce_2, n_time, nonce)
