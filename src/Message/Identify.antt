-- ===== src/Message/Identify.antt =====
-- pool/message.go, IdentifyMessage.
use eacrpool.Prelude.{ℕ, ◌==◌, ◌≡◌, Option, none, some, [], if◌then◌else◌}
use eacrpool.Errors.{Result, ok, err, foreign}
use eacrpool.Bytes.{Bytes, equal}
use eacrpool.Message.{
  Wire, Request, Response, Message, null, request, response, received, received_response,
  request_message, response_message, notification_message,
}

-- encoding/json on the two records: `none` is the error of Unmarshal.
pub record Encoding (W : Wire) : Type 0 where
  pub marshal_request : Request W.Float → Bytes
  pub marshal_response : Response W.Float → Bytes
  pub unmarshal_request : Bytes → Option (Request W.Float)
  pub unmarshal_response : Bytes → Option (Response W.Float)

-- What is documented of them: a field is read from the member of its name, and a member that the
-- record has no field for is ignored, so that a response read as a request has an id alone.
pub record IsEncoding {W : Wire} (E : Encoding W) : Type 0 where
  pub reads_request :
      (r : Request W.Float) → E.unmarshal_request (E.marshal_request r) ≡ some (received W r)
  pub reads_response :
      (r : Response W.Float)
      → E.unmarshal_response (E.marshal_response r) ≡ some (received_response W r)
  pub reads_id :
      (r : Response W.Float)
      → E.unmarshal_request (E.marshal_response r)
        ≡ some (record { id = some r.id; method = []; params = null })

module _ {W : Wire} (E : Encoding W) where
  -- the part that reads a response
  unfoldable pub identify_response : Bytes → Result (Message W.Float × ℕ)
  identify_response data_bytes = elim (E.unmarshal_response data_bytes) [
    | none ↦ err foreign
    | some resp ↦ if resp.id == 0 then err foreign else ok (response resp, response_message)
  ]

  unfoldable pub identify_message : Bytes → Result (Message W.Float × ℕ)
  unfolding identify_response
  identify_message data_bytes = elim (E.unmarshal_request data_bytes) [
    | none ↦ err foreign
    | some req ↦ if equal req.method [] then identify_response data_bytes else elim req.id [
      | none ↦ ok (request req, notification_message)
      | some _ ↦ ok (request req, request_message)
    ]
  ]
