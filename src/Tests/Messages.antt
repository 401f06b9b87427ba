-- ===== src/Tests/Messages.antt =====
-- Messages over the encoding of the tests.
use eacrpool.Prelude.{ℕ, ◌+◌, ◌<◌, ◌/◌, ◌≤◌, ◌≡◌, refl, true, some, none, [], arith}
use native.Mathlib.Nat.{le-div_iff_mul-le, div-lt_iff_lt-mul}
use eacrpool.Errors.{ok}
use eacrpool.Bytes.{Bytes}
use eacrpool.Rat.{Rat}
use eacrpool.Message.Parsing.{IsNearest}
use eacrpool.Text.{codes}
use eacrpool.Message.{
  response, received_response, request_message, response_message, notification_message,
}
use eacrpool.Message.Requests.{
  authorize_request, parse_authorize_request, subscribe_request, parse_subscribe_request,
  submit_work_request, parse_submit_work_request,
}
use eacrpool.Message.Responses.{submit_work_response, subscribe_response, parse_subscribe_response}
use eacrpool.Message.Notifications.{
  work_notification, parse_work_notification, set_difficulty_notification,
  parse_set_difficulty_notification,
}
use eacrpool.Message.Identify.{identify_message}
use eacrpool.Message.RoundTrip.{Delivers, requests_roundtrip, notifications_roundtrip}
use eacrpool.Tests.Wire.{wire, encoding, encoding-IsEncoding, wire-IsWire}

abbrev job : Bytes
job = codes "7"

abbrev field : Bytes
field = codes "00ff"

requests_roundtrip_example :
    Delivers encoding request_message
      (authorize_request (some 1) (codes "rig") (codes "Sx"))
      parse_authorize_request
      (codes "Sx.rig")
    × Delivers encoding request_message
        (subscribe_request (some 1) (codes "cpu") (codes "1.0") [])
        parse_subscribe_request
        (codes "cpu/1.0", [])
    × Delivers encoding request_message
        (submit_work_request (some 1) (codes "rig") job field field field)
        parse_submit_work_request
        (codes "rig", job, field, field, field)
requests_roundtrip_example =
    requests_roundtrip encoding encoding-IsEncoding wire-IsWire 1 (codes "rig") (codes "Sx")
      (codes "cpu") (codes "1.0") [] (codes "rig") job field field field refl refl refl refl refl
      refl refl refl

-- the whole part of a rational
abbrev floor : Rat → ℕ
floor r = r.num / r.den

floor-IsNearest : IsNearest floor
floor-IsNearest = record {
  at_least = λ r n small den low. (le-div_iff_mul-le den).1 low;
  at_most = λ r n small den high.
      let less : r.num / r.den < n + 1 = (div-lt_iff_lt-mul den).1 (grind arith) in omega arith;
}

notifications_roundtrip_example :
    Delivers encoding notification_message
      (work_notification job field field field field field field true)
      parse_work_notification
      (job, field, field, field, field, field, field, true)
    × Delivers encoding notification_message
        (set_difficulty_notification floor (record { num = 5; den = 2 }))
        (parse_set_difficulty_notification wire)
        2
    × (2 ≤ 2)
    × (2 ≤ 3)
    × (identify_message encoding (encoding.marshal_response (submit_work_response 3 true none))
        ≡ ok (
          response (received_response wire (submit_work_response 3 true none)),
          response_message,
        ))
    × (parse_subscribe_response wire
          (received_response wire (subscribe_response 3 (codes "mn") field 8 none))
        ≡ ok (codes "mn", codes "mn", field, 8))
unfolding submit_work_response
notifications_roundtrip_example =
    notifications_roundtrip encoding encoding-IsEncoding wire-IsWire job field field field field
      field field true floor (record { num = 5; den = 2 }) 2 (submit_work_response 3 true none) 3
      (codes "mn") field 8 refl refl refl refl refl refl refl floor-IsNearest (omega arith)
      (omega arith) (omega arith) (omega arith) refl refl (omega arith)
