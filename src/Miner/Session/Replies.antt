-- ===== src/Miner/Session/Replies.antt =====
-- cmd/miner/client.go: process.
use eacrpool.Prelude.{
  ℕ, ◌≡◌, refl, Bool, true, false, not, ◌||◌, Option, none, some, [], ◌==◌, arith, Bool-cases, inl,
  inr,
}
use eacrpool.Errors.{Result, ok, err, panic, result_cases}
use eacrpool.Bytes.{Bytes, equal}
use eacrpool.Client.{Chain}
use eacrpool.Message.{
  Wire, Message, Request, Response, StratumError, request, response, authorize, subscribe, submit,
  set_difficulty, notify, request_message, response_message, notification_message,
}
use eacrpool.Message.Responses.{
  parse_authorize_response, parse_subscribe_response, parse_submit_work_response,
}
use eacrpool.Message.Notifications.{parse_set_difficulty_notification, parse_work_notification}
use eacrpool.Difficulty.{difficulty_to_target, of_int}
use eacrpool.Miner.{Config, MinerState, method_of, or_cancel}
use eacrpool.Miner.Processing.{
  take_authorization, process_authorize_response, process_submit_response, generate_header, set_job,
  process_notify, process_subscribe_response, process_set_difficulty, response_to,
  process_pool_response, process_notification, process_received,
}
use eacrpool.Miner.Session.{
  IsSound, asked, asked-method_of, has_header, Keeps, or_cancel-IsSound, cancel_miner-IsSound,
}

module _ {F : Type 0} where
  set_job-IsSound :
      (job_id header : Bytes) (m : MinerState F)
      → m.authorized ≡ true
      → m.subscribed ≡ true
      → IsSound m
      → IsSound (set_job job_id header m).1
  set_job-IsSound job_id header m authorized subscribed s = record {
    admitted = λ h. (authorized, subscribed);
    asked_authorize = s.asked_authorize;
    asked_subscribe = s.asked_subscribe;
  }

  process_notify-IsSound : (chain : Chain) (notif : Request F) → Keeps (process_notify chain notif)
  unfolding process_notify or_cancel
  process_notify-IsSound chain notif m s =
      elim (Bool-cases (not m.authorized || not m.subscribed)) [
        | inl early ↦ rw (process_notify, early) s
        | inr admitted ↦ elim (result_cases (parse_work_notification notif)) [
          | inr (inl (e, parsed)) ↦ rw (process_notify, admitted, parsed) (cancel_miner-IsSound m s)
          | inr (inr parsed) ↦ rw (process_notify, admitted, parsed) s
          | inl ((job_id, prev, tx1, tx2, version, bits, time, clean), parsed) ↦
              elim (result_cases (generate_header chain version prev tx1 m.extra_nonce_1 tx2)) [
                | inr (inl (e, made)) ↦
                    rw (process_notify, admitted, parsed, made) (cancel_miner-IsSound m s)
                | inr (inr made) ↦ rw (process_notify, admitted, parsed, made) s
                | inl (header, made) ↦
                    rw (process_notify, admitted, parsed, made)
                      (set_job-IsSound job_id header m (ground arith) (ground arith) s)
              ]
        ]
      ]

  take_authorization-IsSound :
      (taken : Bool × Option StratumError) (m : MinerState F)
      → asked authorize m.req ≡ true
      → IsSound m
      → IsSound (take_authorization taken m).1
  unfolding take_authorization
  take_authorization-IsSound (true, some e) m by_asking s = cancel_miner-IsSound m s
  take_authorization-IsSound (false, some e) m by_asking s = cancel_miner-IsSound m s
  take_authorization-IsSound (false, none) m by_asking s = cancel_miner-IsSound m s
  take_authorization-IsSound (true, none) m by_asking s = record {
    admitted = λ h. (refl, (s.admitted h).1);
    asked_authorize = λ h. by_asking;
    asked_subscribe = s.asked_subscribe;
  }

  process_authorize_response-IsSound :
      (resp : Response F) (m : MinerState F)
      → asked authorize m.req ≡ true
      → IsSound m
      → IsSound (process_authorize_response resp m).1
  unfolding process_authorize_response
  process_authorize_response-IsSound resp m by_asking s =
      elim (result_cases (parse_authorize_response resp)) [
        | inl (taken, parsed) ↦
            rw (process_authorize_response, parsed, or_cancel)
              (take_authorization-IsSound taken m by_asking s)
        | inr (inl (e, parsed)) ↦
            rw (process_authorize_response, parsed, or_cancel) (cancel_miner-IsSound m s)
        | inr (inr parsed) ↦ rw (process_authorize_response, parsed, or_cancel) s
      ]

  process_submit_response-IsSound : (resp : Response F) → Keeps (process_submit_response resp)
  unfolding process_submit_response
  process_submit_response-IsSound resp =
      or_cancel-IsSound (parse_submit_work_response resp) (λ _ m. (ok tt, m)) λ _ m s. s

module _ (W : Wire) where
  process_subscribe_response-IsSound :
      (resp : Response W.Float) (m : MinerState W.Float)
      → asked subscribe m.req ≡ true
      → IsSound m
      → IsSound (process_subscribe_response W resp m).1
  unfolding process_subscribe_response
  process_subscribe_response-IsSound resp m by_asking s =
      elim (result_cases (parse_subscribe_response W resp)) [
        | inl ((diff_id, notify_id, extra_nonce_1, size), parsed) ↦
            rw (process_subscribe_response, parsed, or_cancel)
              record {
                admitted = λ h. ((s.admitted h).0, refl);
                asked_authorize = s.asked_authorize;
                asked_subscribe = λ h. by_asking;
              }
        | inr (inl (e, parsed)) ↦
            rw (process_subscribe_response, parsed, or_cancel) (cancel_miner-IsSound m s)
        | inr (inr parsed) ↦ rw (process_subscribe_response, parsed, or_cancel) s
      ]

  process_set_difficulty-IsSound :
      (cfg : Config) (notif : Request W.Float) → Keeps (process_set_difficulty W cfg notif)
  unfolding process_set_difficulty has_header
  process_set_difficulty-IsSound cfg notif =
      or_cancel-IsSound (parse_set_difficulty_notification W notif) _ λ difficulty.
        or_cancel-IsSound (difficulty_to_target cfg.net (of_int difficulty)) _ λ target m s.
          record {
            admitted = s.admitted;
            asked_authorize = s.asked_authorize;
            asked_subscribe = s.asked_subscribe;
          }

  response_to-IsSound :
      (resp : Response W.Float) (method : Bytes) (m : MinerState W.Float)
      → ((asking : Bytes)
          → equal method asking ≡ true
          → equal asking [] ≡ false
          → asked asking m.req ≡ true)
      → IsSound m
      → IsSound (response_to W resp method m).1
  unfolding response_to equal
  response_to-IsSound resp method m recorded s = elim (Bool-cases (equal method [])) [
    | inl missing ↦ simp (response_to, missing) (cancel_miner-IsSound m s)
    | inr found ↦ elim (Bool-cases (equal method authorize)) [
      | inl named ↦
          simp (response_to, found, named)
            (process_authorize_response-IsSound resp m (recorded authorize named refl) s)
      | inr not_authorize ↦ elim (Bool-cases (equal method subscribe)) [
        | inl named ↦
            simp (response_to, found, not_authorize, named)
              (process_subscribe_response-IsSound resp m (recorded subscribe named refl) s)
        | inr not_subscribe ↦ elim (Bool-cases (equal method submit)) [
          | inl named ↦
              simp (response_to, found, not_authorize, not_subscribe, named)
                (process_submit_response-IsSound resp m s)
          | inr unknown ↦ simp (response_to, found, not_authorize, not_subscribe, unknown) s
        ]
      ]
    ]
  ]

  process_pool_response-IsSound : (resp : Response W.Float) → Keeps (process_pool_response W resp)
  unfolding process_pool_response
  process_pool_response-IsSound resp m s =
      response_to-IsSound resp (method_of resp.id m.req) m
        (λ asking. asked-method_of resp.id asking m.req) s

  process_notification-IsSound :
      (chain : Chain) (cfg : Config) (notif : Request W.Float)
      → Keeps (process_notification W chain cfg notif)
  unfolding process_notification
  process_notification-IsSound chain cfg notif m s =
      elim (Bool-cases (equal notif.method set_difficulty)) [
        | inl named ↦
            simp (process_notification, named) (process_set_difficulty-IsSound cfg notif m s)
        | inr other ↦ elim (Bool-cases (equal notif.method notify)) [
          | inl named ↦
              simp (process_notification, other, named) (process_notify-IsSound chain notif m s)
          | inr unknown ↦ simp (process_notification, other, unknown) s
        ]
      ]

  pub process_received-IsSound :
      (chain : Chain) (cfg : Config) (identified : Result (Message W.Float × ℕ))
      → Keeps (process_received W chain cfg identified)
  unfolding process_received
  process_received-IsSound chain cfg (err e) m s = cancel_miner-IsSound m s
  process_received-IsSound chain cfg panic m s = s
  process_received-IsSound chain cfg (ok (request req, kind)) m s =
      elim (Bool-cases (kind == response_message)) [
        | inl confused ↦ simp (process_received, confused) s
        | inr no_response ↦ elim (Bool-cases (kind == notification_message)) [
          | inl notifies ↦
              simp (process_received, no_response, notifies)
                (process_notification-IsSound chain cfg req m s)
          | inr other ↦ simp (process_received, no_response, other) s
        ]
      ]
  process_received-IsSound chain cfg (ok (response resp, kind)) m s =
      elim (Bool-cases (kind == response_message)) [
        | inl responds ↦ simp (process_received, responds) (process_pool_response-IsSound resp m s)
        | inr no_response ↦
            elim (Bool-cases (kind == request_message || kind == notification_message)) [
              | inl confused ↦ simp (process_received, no_response, confused) s
              | inr other ↦ simp (process_received, no_response, other) s
            ]
      ]
