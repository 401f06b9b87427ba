-- ===== src/Client/Subscribe.antt =====
-- pool/client.go, handleSubscribeRequest and setDifficulty.
use eacrpool.Prelude.{ℕ, Bool, true, not, none, [], ◌++◌, if◌then◌else◌}
use eacrpool.Bytes.{Bytes, equal}
use eacrpool.Text.{codes}
use eacrpool.Strings.{repeat}
use eacrpool.Bolt.{Bolt}
use eacrpool.Exec.{Exec, lift, gets, ◌>>=◌, ◌>>◌}
use eacrpool.Rat.{Rat}
use eacrpool.Difficulty.{Miner, dr3, dr5, whatsminer}
use eacrpool.Message.{Request, request, extra_nonce_2_size}
use eacrpool.Message.Requests.{parse_subscribe_request}
use eacrpool.Message.Responses.{subscribe_response}
use eacrpool.Message.Notifications.{set_difficulty_notification}
use eacrpool.Client.{ClientConfig, Session, set_client, send, respond, run_or_reject, unknown_error}

-- The first extra nonce of the response, with the room for the second that the miner needs, and the
-- size of the second.
unfoldable pub extra_nonces : Miner → Bytes → Bytes × ℕ
extra_nonces dr3 extra_nonce_1 = (repeat 48 16 ++ extra_nonce_1, 8)
extra_nonces dr5 extra_nonce_1 = (repeat 48 16 ++ extra_nonce_1, 8)
extra_nonces whatsminer extra_nonce_1 = (repeat 48 8 ++ extra_nonce_1, extra_nonce_2_size)
extra_nonces _ extra_nonce_1 = (extra_nonce_1, extra_nonce_2_size)

-- a subscription id where the client gives none
unfoldable pub notify_id : Bytes → Bytes → Bytes
notify_id nid extra_nonce_1 = if equal nid [] then codes "mn" ++ extra_nonce_1 else nid

module _ {B : Bolt} {F : Type 0} (cfg : ClientConfig) where
  -- The client counts as subscribed once the response is handed over.
  unfoldable pub accept_subscription : Request F → Bytes → Exec (Session B F) (Unit {0})
  unfolding respond extra_nonces notify_id
  accept_subscription req nid = do
    extra_nonce_1 ← gets λ s. s.client.extra_nonce_1
    respond req λ id.
        let (padded, size) = extra_nonces cfg.miner extra_nonce_1 in
        subscribe_response id (notify_id nid extra_nonce_1) padded size none
    set_client λ c. record c { subscribed = true }

  unfoldable pub handle_subscribe_request : Request F → Bool → Exec (Session B F) (Unit {0})
  unfolding respond run_or_reject accept_subscription
  handle_subscribe_request req allowed =
      let rejected = respond req λ id. subscribe_response id [] [] 0 unknown_error in
      if not allowed
      then rejected
      else run_or_reject (lift (parse_subscribe_request req)) rejected
          λ (_, nid). accept_subscription req nid

  -- `whole` is the conversion of a rational to float64 and uint64.
  unfoldable pub set_client_difficulty : (Rat → ℕ) → Exec (Session B F) (Unit {0})
  unfolding send
  set_client_difficulty whole =
      send (request (set_difficulty_notification whole cfg.difficulty_info.difficulty))
