-- ===== src/Message/Parsing.antt =====
-- pool/message.go: the parsers on the messages that the constructors build, as they are received.
use eacrpool.Prelude.{
  ℕ, ◌*◌, ◌≤◌, ◌^◌, ◌<◌, ◌≡◌, refl, Bool, true, false, Option, none, some, [], ◌∷◌, ◌++◌, ltb, ◌==◌,
  ◌&&◌, if◌then◌else◌,
}
use eacrpool.Errors.{ok, err, foreign}
use eacrpool.Rat.{Rat}
use eacrpool.Bytes.{Bytes, equal, equal_refl}
use eacrpool.Text.{codes}
use eacrpool.Message.{
  Wire, Request, Response, request, response, received, received_response, received_error,
  request_message, response_message, notification_message, authorize, subscribe, submit,
  set_difficulty, notify, decoded_value, decoded_items, decoded_texts, decoded_text_lists,
  decoded_uints, as_text, as_bool, as_array, at_index, length_of, check_method,
}
use eacrpool.Message.Requests.{
  authorize_request, parse_authorize_request, subscribe_request, parse_subscribe_request,
  subscription_id, check_agent, submit_work_request, parse_submit_work_request, text_at,
}
use eacrpool.Message.Responses.{subscribe_response, parse_subscribe_response, as_number, array_at}
use eacrpool.Message.Notifications.{
  set_difficulty_notification, parse_set_difficulty_notification, work_notification,
  parse_work_notification, must_number,
}
use eacrpool.Message.Identify.{Encoding, IsEncoding, identify_message, identify_response}

-- a text that encoding/json keeps
abbrev pub Kept : Wire → Bytes → Type 0
Kept W s = W.valid s ≡ s

abbrev pub is_ascii : Bytes → Bool
is_ascii [] = true
is_ascii (c ∷ s) = ltb c 128 && is_ascii s

-- What is documented of the standard library: ASCII is valid UTF-8, and an integer below 2 ^ 53 is
-- exact as a float64.
pub record IsWire (W : Wire) : Type 0 where
  pub keeps_ascii : (s : Bytes) → is_ascii s ≡ true → Kept W s
  pub exact : (n : ℕ) → n < 2 ^ 53 → W.to_uint (W.of_uint n) ≡ n

-- The conversion of a rational to float64, to the nearest one and exact below 2 ^ 53, and to uint64, which
-- cuts the fraction off: it does not pass a whole number.
pub record IsNearest (whole : Rat → ℕ) : Type 0 where
  pub at_least : (r : Rat) (n : ℕ) → n < 2 ^ 53 → 0 < r.den → n * r.den ≤ r.num → n ≤ whole r
  pub at_most : (r : Rat) (n : ℕ) → n < 2 ^ 53 → 0 < r.den → r.num ≤ n * r.den → whole r ≤ n

equal-cons-nil : (c : ℕ) (s : Bytes) → equal (c ∷ s) [] ≡ false
unfolding equal
equal-cons-nil c s = refl

module _ {W : Wire} (E : Encoding W) where
  module _ (is_encoding : IsEncoding E) where
    pub identify_request :
        (r : Request W.Float) (id : ℕ)
        → r.id ≡ some id
        → equal (W.valid r.method) [] ≡ false
        → identify_message E (E.marshal_request r) ≡ ok (request (received W r), request_message)
    unfolding identify_message received
    identify_request r id has_id named =
        simp (identify_message, is_encoding.reads_request r, named, has_id)

    pub identify_notification :
        (r : Request W.Float)
        → r.id ≡ none
        → equal (W.valid r.method) [] ≡ false
        → identify_message E (E.marshal_request r)
          ≡ ok (request (received W r), notification_message)
    unfolding identify_message received
    identify_notification r no_id named =
        simp (identify_message, is_encoding.reads_request r, named, no_id)

    pub identify-response :
        (r : Response W.Float)
        → identify_message E (E.marshal_response r) ≡ (
            if r.id == 0
            then err foreign
            else ok (response (received_response W r), response_message))
    unfolding identify_message identify_response received_response
    identify-response r =
        rw
          (
            identify_message,
            identify_response,
            is_encoding.reads_id r,
            is_encoding.reads_response r,
            equal_refl [],
          )
          refl

    pub is_named :
        (method : Bytes)
        → IsWire W
        → is_ascii method ≡ true
        → equal method [] ≡ false
        → equal (W.valid method) [] ≡ false
    is_named method is_wire ascii not_empty = rw (is_wire.keeps_ascii method ascii) not_empty

    module _ (is_wire : IsWire W) where
      -- where the texts are kept
      pub parse-authorize :
          (id : Option ℕ) (name address : Bytes)
          → Kept W (address ++ codes "." ++ name)
          → parse_authorize_request (received W (authorize_request id name address))
            ≡ ok (address ++ codes "." ++ name)
      unfolding parse_authorize_request received authorize_request decoded_value decoded_texts
          check_method as_array at_index as_text
      parse-authorize id name address user =
          rw (is_wire.keeps_ascii authorize refl, equal_refl authorize, user) refl

      pub parse-submit :
          (id : Option ℕ) (worker job_id extra n_time nonce : Bytes)
          → Kept W worker
          → Kept W job_id
          → Kept W extra
          → Kept W n_time
          → Kept W nonce
          → parse_submit_work_request
              (received W (submit_work_request id worker job_id extra n_time nonce))
            ≡ ok (worker, job_id, extra, n_time, nonce)
      unfolding parse_submit_work_request received submit_work_request decoded_value decoded_texts
          check_method as_array at_index as_text text_at
      parse-submit id worker job_id extra n_time nonce k1 k2 k3 k4 k5 =
          rw (is_wire.keeps_ascii submit refl, equal_refl submit, k1, k2, k3, k4, k5) refl

      pub parse-subscribe :
          (id : Option ℕ) (agent version notify_id : Bytes)
          → Kept W (agent ++ codes "/" ++ version)
          → Kept W notify_id
          → parse_subscribe_request (received W (subscribe_request id agent version notify_id))
            ≡ ok (agent ++ codes "/" ++ version, notify_id)
      unfolding parse_subscribe_request received subscribe_request decoded_value decoded_texts
          check_method as_array at_index as_text length_of check_agent subscription_id
      parse-subscribe id agent version [] k1 k2 =
          rw (is_wire.keeps_ascii subscribe refl, equal_refl subscribe, equal_refl [], k1) refl
      parse-subscribe id agent version (c ∷ s) k1 k2 =
          rw (is_wire.keeps_ascii subscribe refl, equal_refl subscribe, equal-cons-nil c s, k1, k2)
            refl

      pub parse-work :
          (job_id prev_block gen_tx1 gen_tx2 block_version n_bits n_time : Bytes) (clean_job : Bool)
          → Kept W job_id
          → Kept W prev_block
          → Kept W gen_tx1
          → Kept W gen_tx2
          → Kept W block_version
          → Kept W n_bits
          → Kept W n_time
          → parse_work_notification (
              received W (
                work_notification job_id prev_block gen_tx1 gen_tx2 block_version n_bits n_time
                  clean_job))
            ≡ ok (job_id, prev_block, gen_tx1, gen_tx2, block_version, n_bits, n_time, clean_job)
      unfolding parse_work_notification received work_notification decoded_value decoded_items
          decoded_texts check_method as_array at_index as_text as_bool text_at
      parse-work a b c d e f g clean k1 k2 k3 k4 k5 k6 k7 =
          rw (is_wire.keeps_ascii notify refl, equal_refl notify, k1, k2, k3, k4, k5, k6, k7) refl

      pub parse-difficulty :
          (whole : Rat → ℕ) (difficulty : Rat)
          → whole difficulty < 2 ^ 53
          → parse_set_difficulty_notification W
              (received W (set_difficulty_notification whole difficulty))
            ≡ ok (whole difficulty)
      unfolding parse_set_difficulty_notification received set_difficulty_notification decoded_value
          decoded_uints check_method as_array at_index must_number
      parse-difficulty whole difficulty small =
          rw
            (
              is_wire.keeps_ascii set_difficulty refl,
              equal_refl set_difficulty,
              is_wire.exact (whole difficulty) small,
            )
            refl

      pub parse-subscribed :
          (id : ℕ) (notify_id extra_nonce_1 : Bytes) (size : ℕ)
          → Kept W notify_id
          → Kept W extra_nonce_1
          → size < 2 ^ 53
          → parse_subscribe_response W
              (received_response W (subscribe_response id notify_id extra_nonce_1 size none))
            ≡ ok (notify_id, notify_id, extra_nonce_1, size)
      unfolding parse_subscribe_response received_response received_error subscribe_response
          decoded_value decoded_items decoded_text_lists decoded_texts as_array at_index as_text
          array_at text_at as_number
      parse-subscribed id notify_id extra_nonce_1 size k1 k2 small =
          rw (k1, k2, is_wire.exact size small) refl
