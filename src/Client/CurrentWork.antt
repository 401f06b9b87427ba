-- ===== src/Client/CurrentWork.antt =====
-- pool/client.go, updateWork.
use eacrpool.Prelude.{
  ℕ, ◌%◌, ◌^◌, ltb, Bool, true, not, ◌||◌, none, some, [], ◌++◌, take, drop, length, if◌then◌else◌,
}
use eacrpool.Errors.{Result, ok, panic}
use eacrpool.Bytes.{Bytes, equal, hex_encode, hex_decode, uint32_le, put_uint32_le}
use eacrpool.Bolt.{Bolt}
use eacrpool.Exec.{Exec, pure, lift, ◌>>=◌}
use eacrpool.Job.{Job, new_job, create_job}
use eacrpool.Message.{Request, request}
use eacrpool.Message.Notifications.{work_notification}
use eacrpool.Client.{Codecs, Times, Session, with_db, send, run_or_reject}

-- `s[i:j]` of a text that is long enough
unfoldable pub part : ℕ → ℕ → Bytes → Bytes
part i n s = take n (drop i s)

-- the work with the clock's seconds in its characters 272 to 280
unfoldable pub rolled : ℕ → Bytes → Bytes
rolled now work = take 272 work ++ hex_encode (put_uint32_le (now % 2 ^ 32)) ++ drop 280 work

-- The height at the characters 256 to 264. Where they are not hexadecimal the decoding stops before
-- four bytes, and Uint32 panics on what it has.
unfoldable pub rolled_height : Bytes → Result ℕ
unfolding part
rolled_height work = elim (hex_decode (part 256 8 work)) [
  | none ↦ panic
  | some b ↦ elim (uint32_le b) [ none ↦ panic | some height ↦ ok height ]
]

-- the notification of a job's work
unfoldable pub notification : {F : Type 0} → Job → Bytes → Request F
unfolding part
notification job work =
    work_notification job.uuid (part 8 64 work) (part 72 216 work) (part 352 8 work) (part 0 8 work)
      (part 232 8 work) (part 272 8 work) true

module _ {B : Bolt} {F : Type 0} (codecs : Codecs) (now : Times) where
  -- The job of the rolled work is stored; the notification is sent if a receiver is `ready`.
  unfoldable pub send_rolled : Bool → Bytes → Exec (Session B F) (Unit {0})
  unfolding rolled rolled_height notification with_db send run_or_reject
  send_rolled ready work = do
    let updated = rolled now.seconds work
    height ← lift (rolled_height updated)
    let job = new_job now.nanoseconds updated height
    run_or_reject (with_db (create_job codecs.job_json job)) (pure tt)
        λ _. if ready then send (request (notification job updated)) else pure tt

  -- `work` is what FetchCurrentWork gives; a slice of a shorter one panics.
  unfoldable pub update_client_work : Bool → Bytes → Bool → Exec (Session B F) (Unit {0})
  unfolding send_rolled
  update_client_work ready work allowed s =
      if not s.client.subscribed || not s.client.authorized
      then (ok tt, s)
      else if not allowed || equal work []
      then (ok tt, s)
      else if ltb (length work) 360
      then (panic, s)
      else send_rolled ready work s
