-- ===== src/Message/RoundTrip.antt =====
-- pool/message.go: what becomes of the messages that one side builds and the other side reads.
use eacrpool.Prelude.{
  ℕ, ◌+◌, ◌*◌, ◌≤◌, arith, ◌^◌, ◌<◌, ◌≡◌, refl, Bool, true, false, [], none, some, ◌++◌, ◌==◌,
  if◌then◌else◌,
}
use eacrpool.Errors.{Result, ok, err, foreign}
use eacrpool.Rat.{Rat}
use eacrpool.Bytes.{Bytes, equal}
use eacrpool.Text.{codes}
use eacrpool.Message.{
  Wire, Request, Response, request, response, received, received_response, request_message,
  response_message, notification_message, authorize, subscribe, submit, set_difficulty, notify,
}
use eacrpool.Message.Requests.{
  authorize_request, parse_authorize_request, subscribe_request, parse_subscribe_request,
  submit_work_request, parse_submit_work_request,
}
use eacrpool.Message.Responses.{subscribe_response, parse_subscribe_response}
use eacrpool.Message.Notifications.{
  set_difficulty_notification, parse_set_difficulty_notification, work_notification,
  parse_work_notification,
}
use eacrpool.Message.Identify.{Encoding, IsEncoding, identify_message}
use eacrpool.Message.Parsing.{
  Kept, IsWire, IsNearest, is_ascii, identify_request, identify_notification, identify-response,
  is_named, parse-authorize, parse-submit, parse-subscribe, parse-work, parse-difficulty,
  parse-subscribed,
}

module _ {W : Wire} (E : Encoding W) where
  -- The receiver of the encoded request identifies it as one of the given kind and parses `a` from it.
  abbrev pub Delivers {ℓ} :
      {A : Type ℓ} → ℕ → Request W.Float → (Request W.Float → Result A) → A → Type ℓ
  Delivers kind r parse_request a =
      (identify_message E (E.marshal_request r) ≡ ok (request (received W r), kind))
      × (parse_request (received W r) ≡ ok a)

  module _ (is_encoding : IsEncoding E) (is_wire : IsWire W) where
    module _ {ℓ} {A : Type ℓ} (r : Request W.Float) (read : Request W.Float → Result A) {a : A}
        (method : Bytes) (is_method : r.method ≡ method) (ascii : is_ascii method ≡ true)
        (not_empty : equal method [] ≡ false) (parses : read (received W r) ≡ ok a) where
      Delivers-request : (id : ℕ) → r.id ≡ some id → Delivers request_message r read a
      Delivers-request id has_id = (
        identify_request E is_encoding r id has_id
            (rw is_method (is_named E is_encoding method is_wire ascii not_empty)),
        parses,
      )

      Delivers-notification : r.id ≡ none → Delivers notification_message r read a
      Delivers-notification no_id = (
        identify_notification E is_encoding r no_id
            (rw is_method (is_named E is_encoding method is_wire ascii not_empty)),
        parses,
      )

    -- Where encoding/json keeps the texts of an authorize, a subscribe and a submit request with an ID,
    -- the receiver of each identifies a request, and parses what the sender built it from: the user
    -- `address.name`; the agent `agent/version` and the id to be notified under, an empty one included;
    -- and the five fields of the submission in their order.
    pub requests_roundtrip :
        (id : ℕ) (name address agent version notify_id worker job_id extra n_time nonce : Bytes)
        → Kept W (address ++ codes "." ++ name)
        → Kept W (agent ++ codes "/" ++ version)
        → Kept W notify_id
        → Kept W worker
        → Kept W job_id
        → Kept W extra
        → Kept W n_time
        → Kept W nonce
        → Delivers request_message
            (authorize_request (some id) name address)
            parse_authorize_request
            (address ++ codes "." ++ name)
          × Delivers request_message
              (subscribe_request (some id) agent version notify_id)
              parse_subscribe_request
              (agent ++ codes "/" ++ version, notify_id)
          × Delivers request_message
              (submit_work_request (some id) worker job_id extra n_time nonce)
              parse_submit_work_request
              (worker, job_id, extra, n_time, nonce)
    unfolding authorize_request subscribe_request submit_work_request equal
    requests_roundtrip id name address agent version notify_id worker job_id extra n_time nonce user
          agent_kept id_kept k1 k2 k3 k4 k5 =
        (
          Delivers-request _ parse_authorize_request authorize refl refl refl
              (parse-authorize E is_encoding is_wire (some id) name address user) id refl,
          Delivers-request _ parse_subscribe_request subscribe refl refl refl
              (parse-subscribe E is_encoding is_wire (some id) agent version notify_id agent_kept
                id_kept)
              id refl,
          Delivers-request _ parse_submit_work_request submit refl refl refl
              (parse-submit E is_encoding is_wire (some id) worker job_id extra n_time nonce k1 k2
                k3 k4 k5)
              id refl,
        )

    -- Where encoding/json keeps their texts, the receiver of a work and of a set_difficulty notification
    -- identifies a notification, and parses the fields of the work; for a difficulty from `n` to
    -- `n + 1`, which is below 2 ^ 53, it parses the whole number that the sender's conversions give, and
    -- this one is `n` or `n + 1`. The receiver of a response identifies one exactly where its ID is not
    -- 0, and is given an error otherwise; from the response to a subscription it parses the id of the
    -- subscription, twice, the first extra nonce, and the size of the second where that is below 2 ^ 53.
    pub notifications_roundtrip :
        (job_id prev_block gen_tx1 gen_tx2 block_version n_bits n_time : Bytes) (clean_job : Bool)
        → (whole : Rat → ℕ) (difficulty : Rat) (n : ℕ) (resp : Response W.Float) (id : ℕ)
          (notify_id extra_nonce_1 : Bytes) (size : ℕ)
        → Kept W job_id
        → Kept W prev_block
        → Kept W gen_tx1
        → Kept W gen_tx2
        → Kept W block_version
        → Kept W n_bits
        → Kept W n_time
        → IsNearest whole
        → 0 < difficulty.den
        → n * difficulty.den ≤ difficulty.num
        → difficulty.num ≤ (n + 1) * difficulty.den
        → n + 1 < 2 ^ 53
        → Kept W notify_id
        → Kept W extra_nonce_1
        → size < 2 ^ 53
        → Delivers notification_message
            (work_notification job_id prev_block gen_tx1 gen_tx2 block_version n_bits n_time
              clean_job)
            parse_work_notification
            (job_id, prev_block, gen_tx1, gen_tx2, block_version, n_bits, n_time, clean_job)
          × Delivers notification_message
              (set_difficulty_notification whole difficulty)
              (parse_set_difficulty_notification W)
              (whole difficulty)
          × (n ≤ whole difficulty)
          × (whole difficulty ≤ n + 1)
          × (identify_message E (E.marshal_response resp) ≡ (
              if resp.id == 0
              then err foreign
              else ok (response (received_response W resp), response_message)))
          × (parse_subscribe_response W
                (received_response W (subscribe_response id notify_id extra_nonce_1 size none))
              ≡ ok (notify_id, notify_id, extra_nonce_1, size))
    unfolding work_notification set_difficulty_notification equal
    notifications_roundtrip a b c d e f g clean whole difficulty n resp id notify_id extra_nonce_1
          size k1 k2 k3 k4 k5 k6 k7 nearest den low high small k8 k9 small_size =
        let up = nearest.at_most difficulty (n + 1) small den high in
        (
          Delivers-notification _ parse_work_notification notify refl refl refl
              (parse-work E is_encoding is_wire a b c d e f g clean k1 k2 k3 k4 k5 k6 k7) refl,
          Delivers-notification _ (parse_set_difficulty_notification W) set_difficulty refl refl
              refl (parse-difficulty E is_encoding is_wire whole difficulty (omega arith)) refl,
          nearest.at_least difficulty n (omega arith) den low,
          up,
          identify-response E is_encoding resp,
          parse-subscribed E is_encoding is_wire id notify_id extra_nonce_1 size k8 k9 small_size,
        )
