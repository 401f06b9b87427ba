-- ===== src/Miner/Processing.antt =====
-- cmd/miner/client.go, process: what the miner does with a message of the pool.
use eacrpool.Prelude.{
  ℕ, ◌+◌, ◌==◌, Bool, true, false, not, ◌||◌, Option, none, some, [], if◌then◌else◌,
}
use eacrpool.Errors.{Result, ok, err, panic, make_error, other}
use eacrpool.Bytes.{Bytes, equal}
use eacrpool.Exec.{Exec, lift, modify, ◌>>=◌}
use eacrpool.Client.{Chain}
use eacrpool.Difficulty.{difficulty_to_target, of_int}
use eacrpool.Solved.{generate_block_header}
use eacrpool.Message.{
  Wire, Message, Request, Response, StratumError, request, response, authorize, subscribe, submit,
  set_difficulty, notify, request_message, response_message, notification_message,
}
use eacrpool.Message.Responses.{
  parse_authorize_response, parse_subscribe_response, parse_submit_work_response,
}
use eacrpool.Message.Notifications.{parse_set_difficulty_notification, parse_work_notification}
use eacrpool.Miner.{Config, MinerState, fetch_request, cancel_miner, or_cancel}

unfoldable pub generate_header : Chain → Bytes → Bytes → Bytes → Bytes → Bytes → Result Bytes
generate_header chain version prev_block gen_tx1 extra_nonce_1 gen_tx2 =
    elim (generate_block_header chain.from_bytes version prev_block gen_tx1 extra_nonce_1 gen_tx2) [
      | err e ↦ err e
      | panic ↦ panic
      | ok header ↦ elim (chain.header_bytes header) [
        | none ↦ err (make_error other)
        | some bytes ↦ ok bytes
      ]
    ]

module _ {F : Type 0} where
  -- what a parsed response says: an error, or whether the authorization succeeded
  unfoldable pub take_authorization : (Bool × Option StratumError) → Exec (MinerState F) (Unit {0})
  take_authorization (status, some e) = cancel_miner
  take_authorization (true, none) = modify λ m. record m { authorized = true }
  take_authorization (false, none) = cancel_miner

  unfoldable pub process_authorize_response : Response F → Exec (MinerState F) (Unit {0})
  unfolding or_cancel take_authorization
  process_authorize_response resp = or_cancel (parse_authorize_response resp) take_authorization

  -- An error of the pool is only logged.
  unfoldable pub process_submit_response : Response F → Exec (MinerState F) (Unit {0})
  unfolding or_cancel
  process_submit_response resp = or_cancel (parse_submit_work_response resp) λ _ m. (ok tt, m)

  -- the job of a notification
  abbrev pub set_job : Bytes → Bytes → Exec (MinerState F) (Unit {0})
  set_job job_id header = modify λ m. record m {
    work = record m.work { job_id = job_id; header = some header };
    chain_updates = m.chain_updates + 1;
  }

  unfoldable pub process_notify : Chain → Request F → Exec (MinerState F) (Unit {0})
  unfolding or_cancel generate_header
  process_notify chain notif m =
      if not m.authorized || not m.subscribed
      then (ok tt, m)
      else or_cancel (parse_work_notification notif)
          (λ (job_id, prev_block, gen_tx1, gen_tx2, version, bits, time, clean).
            or_cancel (generate_header chain version prev_block gen_tx1 m.extra_nonce_1 gen_tx2)
              (set_job job_id))
          m

module _ (W : Wire) where
  -- what a subscription gives
  unfoldable pub process_subscribe_response :
      Response W.Float → Exec (MinerState W.Float) (Unit {0})
  unfolding or_cancel
  process_subscribe_response resp =
      or_cancel (parse_subscribe_response W resp) λ (diff_id, notify_id, extra_nonce_1, size).
        modify λ m. record m {
          extra_nonce_1 = extra_nonce_1;
          extra_nonce_2_size = size;
          notify_id = notify_id;
          subscribed = true;
        }

  unfoldable pub process_set_difficulty :
      Config → Request W.Float → Exec (MinerState W.Float) (Unit {0})
  unfolding or_cancel
  process_set_difficulty cfg notif =
      or_cancel (parse_set_difficulty_notification W notif) λ difficulty.
        or_cancel (difficulty_to_target cfg.net (of_int difficulty))
          λ target. modify λ m. record m { work = record m.work { target = some target } }

  -- The response to a request of a method; a method that is not one of the three is only logged.
  unfoldable pub response_to : Response W.Float → Bytes → Exec (MinerState W.Float) (Unit {0})
  unfolding process_authorize_response process_subscribe_response process_submit_response
  response_to resp method =
      if equal method []
      then cancel_miner
      else if equal method authorize
      then process_authorize_response resp
      else if equal method subscribe
      then process_subscribe_response resp
      else if equal method submit
      then process_submit_response resp
      else λ m. (ok tt, m)

  unfoldable pub process_pool_response : Response W.Float → Exec (MinerState W.Float) (Unit {0})
  unfolding response_to
  process_pool_response resp = do method ← fetch_request resp.id; response_to resp method

  unfoldable pub process_notification :
      Chain → Config → Request W.Float → Exec (MinerState W.Float) (Unit {0})
  unfolding process_set_difficulty process_notify
  process_notification chain cfg notif =
      if equal notif.method set_difficulty
      then process_set_difficulty cfg notif
      else if equal notif.method notify
      then process_notify chain notif
      else λ m. (ok tt, m)

  -- A message that IdentifyMessage returned, with its kind: requests of the pool are ignored.
  unfoldable pub process_received :
      Chain → Config → Result (Message W.Float × ℕ) → Exec (MinerState W.Float) (Unit {0})
  unfolding process_pool_response process_notification
  process_received chain cfg (err e) = cancel_miner
  process_received chain cfg panic = lift panic
  process_received chain cfg (ok (request req, kind)) =
      if kind == response_message
      then lift panic
      else if kind == notification_message
      then process_notification chain cfg req
      else λ m. (ok tt, m)
  process_received chain cfg (ok (response resp, kind)) =
      if kind == response_message
      then process_pool_response resp
      else if kind == request_message || kind == notification_message
      then lift panic
      else λ m. (ok tt, m)
