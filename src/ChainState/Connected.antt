-- ===== src/ChainState/Connected.antt =====
-- pool/chainstate.go, the handler of connected blocks: the calls that it makes, and its done channel.
pub mod Confirms
use eacrpool.Prelude.{ℕ, ◌+◌, ◌-◌, ◌%◌, ◌^◌, ◌≡◌, Bool, true, false, arith, inl, inr, if◌then◌else◌}
use eacrpool.Errors.{Result, ok, err, panic, result_cases}
use eacrpool.Bytes.{Bytes}
use eacrpool.Bolt.{Bolt}
use eacrpool.Json.{Json}
use eacrpool.Exec.{Exec, pure, lift, reads, ◌>>=◌, ◌>>◌}
use eacrpool.Job.{prune_jobs}
use eacrpool.Work.{
  AcceptedWork, accepted_work_id, fetch_accepted_work, update_work, prune_accepted_work,
}
use eacrpool.Payment.{Payment}
use eacrpool.PaymentMgr.Schemes.{State, on_db}
use eacrpool.ChainState.{
  ChainStateConfig, Handling, close_done, stop, attempt, prune_below, new_payments,
  handle_connected,
}

-- The outcome of a handler by that of its calls: an error is handled.
unfoldable pub handled : {A : Type 0} → Result A → Result (Unit {0})
handled panic = panic
handled _ = ok tt

-- whether the channel is closed then
unfoldable pub ends : {A : Type 0} → Result A → Bool
ends panic = false
ends _ = true

module _ {B : Bolt} where
  -- The books are those that the calls leave, and the channel, which was open, is closed exactly once,
  -- unless a call panicked.
  abbrev Follows : {A : Type 0} → Exec (State B) A → Exec (Handling B) (Unit {0}) → Type 0
  Follows calls handler =
      (h : Handling B)
      → h.closed ≡ false
      → ((handler h).0 ≡ handled (calls h.books).0)
        × ((handler h).1.books ≡ (calls h.books).1)
        × ((handler h).1.closed ≡ ends (calls h.books).0)

  close_done-Follows : Follows (pure tt) (close_done {B = B})
  unfolding close_done handled ends
  close_done-Follows h open' = ground (arith, open')

  attempt-Follows :
      {A C : Type 0} (cancels : Bool) (act : Exec (State B) A) (calls : A → Exec (State B) C)
      (next : A → Exec (Handling B) (Unit {0}))
      → ((a : A) → Follows (calls a) (next a))
      → Follows (act >>= calls) (attempt cancels act next)
  unfolding attempt stop close_done handled ends
  attempt-Follows cancels act calls next rest h open' = elim (result_cases (act h.books).0) [
    | inl (a, done) ↦
        rw (attempt, ◌>>=◌, done) (rest a (record h { books = (act h.books).1 }) open')
    | inr (inl (e, failed)) ↦ ground (arith, failed, open')
    | inr (inr failed) ↦ ground (arith, failed, open')
  ]

module _ {B : Bolt} (cfg : ChainStateConfig B) (json : Json AcceptedWork)
    (payment_json : Json Payment) where
  -- The calls for a connected block in their order, each only if those before it succeed.
  unfoldable pub connected_calls : Bytes → Exec (State B) (Unit {0})
  connected_calls bytes = lift (cfg.from_bytes bytes) >>= λ header.
      cfg.pay_dividends header.height >>= λ _.
      prune_below (λ limit. on_db (prune_jobs limit)) header.height >>= λ _.
      reads (λ s.
        fetch_accepted_work json
          (accepted_work_id header.prev_block ((header.height + 2 ^ 32 - 1) % 2 ^ 32)) s.db)
      >>= λ work. on_db (update_work json (record work { confirmed = true })) >>= λ _.
          prune_below (λ limit. on_db (prune_accepted_work json limit)) header.height >>= λ _.
          (if cfg.solo_pool then pure tt else new_payments cfg json payment_json header) >>= λ _.
          pure tt

  -- The handler of a connected block, whose channel is open, makes these calls and no others: it leaves
  -- the books as they do, it panics exactly where one of them does, and in every other case, whether
  -- they succeed or one fails, it returns with the channel closed, once.
  pub handle_connected_closes :
      (bytes : Bytes) (h : Handling B)
      → h.closed ≡ false
      → let (r, h') = handle_connected cfg json payment_json bytes h in
        let (called, books) = connected_calls bytes h.books in
        (r ≡ handled called) × (h'.books ≡ books) × (h'.closed ≡ ends called)
  unfolding handle_connected connected_calls
  handle_connected_closes bytes = attempt-Follows true (lift (cfg.from_bytes bytes)) _ _ λ header.
      attempt-Follows _ _ _ _ λ _. attempt-Follows _ _ _ _ λ _. attempt-Follows _ _ _ _ λ work.
        attempt-Follows _ _ _ _
          λ _. attempt-Follows _ _ _ _ λ _. attempt-Follows _ _ _ _ λ _. close_done-Follows
