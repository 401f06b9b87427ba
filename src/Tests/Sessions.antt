-- ===== src/Tests/Sessions.antt =====
-- The life of a connection: it is authorized, the hub posts work, and the sender takes the responses.
use eacrpool.Prelude.{ℕ, ◌≡◌, refl, true, some, [], ◌∷◌, ◌++◌}
use eacrpool.Errors.{ok}
use eacrpool.Bytes.{Bytes, hex_encode, hex_digit, equal}
use eacrpool.Text.{codes}
use eacrpool.Solved.{reverse_prev_block_words}
use eacrpool.Difficulty.{dr3, name}
use eacrpool.Message.{Message, Request, request, request_message, received}
use eacrpool.Message.Requests.{authorize_request}
use eacrpool.Message.Notifications.{work_notification}
use eacrpool.Message.Identify.{identify_message}
use eacrpool.Client.{Client, blank_client, new_client, generate_extra_nonce_1}
use eacrpool.Client.Delivery.{Outlet, send_message}
use eacrpool.Client.Delivery.Reordered.{send_message_reorders}
use eacrpool.Client.Process.{Moment, process_message}
use eacrpool.Client.Process.Sessions.{
  Connection, Reach, IsSound, received as taken, posted, start, next, Reach-IsSound,
}
use eacrpool.Message.Parsing.{identify_request}
use eacrpool.Tests.Store.{store}
use eacrpool.Tests.Fixtures.{pool, only_jobs}
use eacrpool.Tests.Wire.{wire, encoding, encoding-IsEncoding, marshal_request}
use eacrpool.Tests.Clients.{chain_of, cfg, codecs, now}

abbrev opened : Client
opened = record blank_client { extra_nonce_1 = codes "0102"; id = codes "0102/cpu" }

abbrev begun : Connection store ℕ
begun = record {
  session = record { client = opened; db = some (pool (only_jobs [])); sent = []; submitted = [] };
  written = [];
}

abbrev moment : Moment
moment = record { handled = now; rolled = now; whole = λ d. 2; ready = true; work = [] }

abbrev rig : Request ℕ
rig = authorize_request (some 1) (codes "rig") (codes "Sx")

abbrev field : Bytes
field = codes "00112233"

abbrev work : Message ℕ
work = request (work_notification field field field field field field field true)

abbrev payload : Message ℕ × ℕ
payload = (request (received wire rig), request_message)

abbrev authorized : Connection store ℕ
authorized = record begun {
  session = (process_message (chain_of 5) cfg codecs moment payload true begun.session).1;
}

abbrev told : Connection store ℕ
told = record authorized {
  session = record authorized.session { sent = authorized.session.sent ++ work ∷ [] };
}

begun_reached : Reach encoding (chain_of 5) cfg codecs begun
unfolding new_client generate_extra_nonce_1 hex_encode hex_digit name
begun_reached = start (ok (1 ∷ 2 ∷ [])) opened begun.session.db refl

rig_identified : identify_message encoding (marshal_request rig) ≡ ok payload
unfolding authorize_request equal
rig_identified = identify_request encoding encoding-IsEncoding rig 1 refl refl

Reach-IsSound_example : IsSound encoding (chain_of 5) cfg codecs told
Reach-IsSound_example = Reach-IsSound encoding (chain_of 5) cfg codecs (
    next (next begun_reached (taken (marshal_request rig) payload moment true rig_identified))
      (posted work))

abbrev outlet : Outlet ℕ
outlet = record { client = record opened { authorized = true; subscribed = true }; written = [] }

send_message_reorders_example :
    (send_message dr3 true
        (request (
          work_notification field
            (codes "78563412")
            field
            field
            field
            (hex_encode (18 ∷ 52 ∷ []))
            (hex_encode (1 ∷ 2 ∷ []))
            true))
        outlet
      ≡ (
        ok tt,
        record outlet {
          written =
              request (
                work_notification field
                  (codes "12345678")
                  field
                  field
                  field
                  (hex_encode (52 ∷ 18 ∷ []))
                  (hex_encode (2 ∷ 1 ∷ []))
                  true)
              ∷ [];
        },
      ))
    × (reverse_prev_block_words (codes "12345678") ≡ ok (codes "78563412"))
unfolding reverse_prev_block_words
send_message_reorders_example =
    send_message_reorders ℕ field (codes "78563412") (codes "12345678") field field field
      (18 ∷ 52 ∷ []) (1 ∷ 2 ∷ []) true refl dr3 outlet
