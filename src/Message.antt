-- ===== src/Message.antt =====
-- pool/message.go: the messages of the stratum protocol, their kinds, and the values that encoding/json
-- gives to their untyped fields.
pub mod Requests
pub mod Responses
pub mod Notifications
pub mod Identify
pub mod Parsing
pub mod RoundTrip
use eacrpool.Prelude.{
  ℕ, zero, suc, ◌≡◌, ◌==◌, Bool, true, false, Option, none, some, List, [], ◌∷◌, if◌then◌else◌,
}
use eacrpool.Errors.{Result, ok, err, panic, make_error, parse}
use eacrpool.Bytes.{Bytes, equal}
use eacrpool.Text.{codes}

-- What an `interface{}` of a message holds. Decoded values are `null`, `bool`, `number`, `text`, `array`
-- and `object`; the others are the Go slices and integers that the constructors put there.
mutual
  pub data Value (F : Type 0) : Type 0 where
    null object : Value F
    bool : Bool → Value F
    number : F → Value F
    text : Bytes → Value F
    array : Values F → Value F
    uint : ℕ → Value F
    texts : List Bytes → Value F
    text_lists : List (List Bytes) → Value F
    uints : List ℕ → Value F

  pub data Values (F : Type 0) : Type 0 where
    empty : Values F
    item : Value F → Values F → Values F

abbrev pub authorize : Bytes
authorize = codes "mining.authorize"

abbrev pub subscribe : Bytes
subscribe = codes "mining.subscribe"

abbrev pub set_difficulty : Bytes
set_difficulty = codes "mining.set_difficulty"

abbrev pub notify : Bytes
notify = codes "mining.notify"

abbrev pub submit : Bytes
submit = codes "mining.submit"

abbrev pub unknown_message : ℕ
unknown_message = 0

abbrev pub request_message : ℕ
request_message = 1

abbrev pub response_message : ℕ
response_message = 2

abbrev pub notification_message : ℕ
notification_message = 3

abbrev pub unknown : ℕ
unknown = 20

abbrev pub stale_job : ℕ
stale_job = 21

abbrev pub duplicate_share : ℕ
duplicate_share = 22

abbrev pub low_difficulty_share : ℕ
low_difficulty_share = 23

abbrev pub unauthorized_worker : ℕ
unauthorized_worker = 24

abbrev pub not_subscribed : ℕ
not_subscribed = 25

abbrev pub extra_nonce_2_size : ℕ
extra_nonce_2_size = 4

pub record StratumError : Type 0 where
  pub code : ℕ
  pub message : Bytes
  pub traceback : Option Bytes

unfoldable pub error_text : ℕ → Bytes
error_text code =
    if code == stale_job
    then codes "Stale Job"
    else if code == duplicate_share
    then codes "Duplicate share"
    else if code == low_difficulty_share
    then codes "Low difficulty share"
    else if code == unauthorized_worker
    then codes "Unauthorized worker"
    else if code == not_subscribed
    then codes "Not subscribed"
    else codes "Other/Unknown"

unfoldable pub new_stratum_error : ℕ → Option Bytes → StratumError
unfolding error_text
new_stratum_error code traceback = record {
  code = code;
  message = error_text code;
  traceback = traceback;
}

-- A nil ID is `none`.
pub record Request (F : Type 0) : Type 0 where
  pub id : Option ℕ
  pub method : Bytes
  pub params : Value F

pub record Response (F : Type 0) : Type 0 where
  pub id : ℕ
  pub error : Option StratumError
  pub result : Value F

pub data Message (F : Type 0) : Type 0 where
  request : Request F → Message F
  response : Response F → Message F

module _ {F : Type 0} where
  abbrev pub new_request : Option ℕ → Bytes → Value F → Request F
  new_request id method params = record { id = id; method = method; params = params }

  abbrev pub new_response : ℕ → Value F → Option StratumError → Response F
  new_response id result error = record { id = id; error = error; result = result }

  -- the method MessageType, which both kinds of message have
  unfoldable pub message_type : Message F → ℕ
  message_type (request _) = request_message
  message_type (response _) = response_message

  -- `v.(string)`, where a failure is answered with a parse error
  unfoldable pub as_text : Value F → Result Bytes
  as_text (text s) = ok s
  as_text _ = err (make_error parse)

  -- `v.(bool)`
  unfoldable pub as_bool : Value F → Result Bool
  as_bool (bool b) = ok b
  as_bool _ = err (make_error parse)

  -- `v.([]interface{})`
  unfoldable pub as_array : Value F → Result (Values F)
  as_array (array vs) = ok vs
  as_array _ = err (make_error parse)

  -- `vs[i]`, which panics past the end
  unfoldable pub at_index : ℕ → Values F → Result (Value F)
  at_index i empty = panic
  at_index zero (item v vs) = ok v
  at_index (suc i) (item v vs) = at_index i vs

  unfoldable pub length_of : Values F → ℕ
  length_of empty = 0
  length_of (item v vs) = suc (length_of vs)

  -- the test of a request's method, which a parser starts with
  unfoldable pub check_method : Bytes → Request F → Result (Unit {0})
  check_method method req = if equal req.method method then ok tt else err (make_error parse)

-- The standard library's JSON as the messages use it: `Float` is float64, `of_uint` the value read from
-- a decimal integer, `to_uint` the conversion to uint64, and `valid` what a string is after it was
-- encoded and decoded (a byte that is not UTF-8 becomes U+FFFD).
pub record Wire : Type 1 where
  pub Float : Type 0
  pub of_uint : ℕ → Float
  pub to_uint : Float → ℕ
  pub valid : Bytes → Bytes

module _ (W : Wire) where
  unfoldable pub decoded_texts : List Bytes → Values W.Float
  decoded_texts [] = empty
  decoded_texts (s ∷ rest) = item (text (W.valid s)) (decoded_texts rest)

  unfoldable pub decoded_text_lists : List (List Bytes) → Values W.Float
  unfolding decoded_texts
  decoded_text_lists [] = empty
  decoded_text_lists (l ∷ rest) = item (array (decoded_texts l)) (decoded_text_lists rest)

  unfoldable pub decoded_uints : List ℕ → Values W.Float
  decoded_uints [] = empty
  decoded_uints (n ∷ rest) = item (number (W.of_uint n)) (decoded_uints rest)

  -- the value that the receiver of an encoded value decodes
  unfoldable mutual
    pub decoded_value : Value W.Float → Value W.Float
    decoded_value null = null
    decoded_value object = object
    decoded_value (bool b) = bool b
    decoded_value (number x) = number x
    decoded_value (text s) = text (W.valid s)
    decoded_value (array vs) = array (decoded_items vs)
    decoded_value (uint n) = number (W.of_uint n)
    decoded_value (texts l) = array (decoded_texts l)
    decoded_value (text_lists l) = array (decoded_text_lists l)
    decoded_value (uints l) = array (decoded_uints l)

    pub decoded_items : Values W.Float → Values W.Float
    decoded_items empty = empty
    decoded_items (item v vs) = item (decoded_value v) (decoded_items vs)

  -- a request as its receiver decodes it
  unfoldable pub received : Request W.Float → Request W.Float
  received req = record {
    id = req.id;
    method = W.valid req.method;
    params = decoded_value req.params;
  }

  unfoldable pub received_error : Option StratumError → Option StratumError
  received_error none = none
  received_error (some e) = some (record {
    code = e.code;
    message = W.valid e.message;
    traceback = elim e.traceback [ none ↦ none | some t ↦ some (W.valid t) ];
  })

  unfoldable pub received_response : Response W.Float → Response W.Float
  unfolding received_error
  received_response resp = record {
    id = resp.id;
    error = received_error resp.error;
    result = decoded_value resp.result;
  }
