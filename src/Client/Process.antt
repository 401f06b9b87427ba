-- ===== src/Client/Process.antt =====
-- pool/client.go, process: one message that a client's connection received.
pub mod Evolution
pub mod Sessions
use eacrpool.Prelude.{ℕ, ◌==◌, Bool, true, false, [], if◌then◌else◌}
use eacrpool.Errors.{Result, ok, err, panic}
use eacrpool.Bytes.{Bytes, equal}
use eacrpool.Bolt.{Bolt}
use eacrpool.Db.{Db}
use eacrpool.Exec.{Exec, lift, ◌>>=◌, ◌>>◌}
use eacrpool.Rat.{Rat}
use eacrpool.RateLimiter.{Rate, RateLimiter, within_limit, pool_client}
use eacrpool.Message.{
  Message, Request, Response, request, response, authorize, subscribe, submit, request_message,
  response_message,
}
use eacrpool.Client.{Client, Chain, ClientConfig, Codecs, Times, Session, set_client}
use eacrpool.Client.Authorize.{handle_authorize_request}
use eacrpool.Client.Subscribe.{handle_subscribe_request, set_client_difficulty}
use eacrpool.Client.Submit.{handle_submit_work_request}
use eacrpool.Client.CurrentWork.{update_client_work}

-- What a message meets: the clock of its handler and of the work that follows, the float64 of the
-- difficulty as a uint64, whether a receiver of that work is ready, and the pool's current work.
pub record Moment : Type 0 where
  pub handled : Times
  pub rolled : Times
  pub whole : Rat → ℕ
  pub ready : Bool
  pub work : Bytes

-- c.req has no entry ever, so it is the zero value.
unfoldable pub fetch_stratum_method : ℕ → Bytes
fetch_stratum_method id = []

module _ {B : Bolt} {F : Type 0} (chain : Chain) (cfg : ClientConfig) (codecs : Codecs)
    (at : Moment) where
  abbrev pub cancel : Exec (Session B F) (Unit {0})
  cancel = set_client λ c. record c { cancelled = true }

  unfoldable pub process_request : Request F → Bool → Exec (Session B F) (Unit {0})
  unfolding handle_authorize_request handle_subscribe_request set_client_difficulty
      update_client_work handle_submit_work_request
  process_request req allowed =
      let work = update_client_work codecs at.rolled at.ready at.work allowed in
      if equal req.method authorize
      then (do
        handle_authorize_request cfg codecs at.handled req allowed
        set_client_difficulty cfg at.whole
        work)
      else if equal req.method subscribe
      then handle_subscribe_request cfg req allowed
      else if equal req.method submit
      then (do handle_submit_work_request chain cfg codecs at.handled req allowed; work)
      else cancel

  -- Both branches of the source's test of the method cancel.
  unfoldable pub process_response : Response F → Exec (Session B F) (Unit {0})
  unfolding fetch_stratum_method
  process_response resp = if equal (fetch_stratum_method resp.id) [] then cancel else cancel

  -- A message with its kind; a message of another type than its kind's is a panic of the assertion.
  unfoldable pub process_message : Message F × ℕ → Bool → Exec (Session B F) (Unit {0})
  unfolding process_request process_response
  process_message (request req, kind) allowed =
      if kind == request_message
      then process_request req allowed
      else if kind == response_message
      then lift panic
      else cancel
  process_message (response resp, kind) allowed =
      if kind == request_message
      then lift panic
      else if kind == response_message
      then process_response resp
      else cancel

  -- with the rate limiter, which `ip` takes a token of
  unfoldable pub process :
      (R : Rate)
      → Bytes
      → Message F × ℕ
      → Session B F × RateLimiter R.Limiter
      → Result (Unit {0}) × (Session B F × RateLimiter R.Limiter)
  unfolding process_message within_limit
  process R ip payload (s, limiters) =
      let (r, limiters') = within_limit R ip pool_client limiters in
      elim r [
        | err e ↦ (err e, (s, limiters'))
        | panic ↦ (panic, (s, limiters'))
        | ok allowed ↦ let (r', s') = process_message payload allowed s in (r', (s', limiters'))
      ]
