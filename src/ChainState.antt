-- ===== src/ChainState.antt =====
-- pool/chainstate.go: the handlers of connected and disconnected blocks. A notification's done channel
-- is closed by its handler; closing it twice panics.
pub mod Disconnected
pub mod Connected
use eacrpool.Prelude.{ℕ, ◌+◌, ◌-◌, ◌%◌, ◌^◌, Bool, true, false, List, [], ◌∷◌, ltb, if◌then◌else◌}
use eacrpool.Errors.{Result, ok, err, panic}
use eacrpool.Bytes.{Bytes}
use eacrpool.Bolt.{Bolt}
use eacrpool.Int64.{Int64}
use eacrpool.Json.{Json}
use eacrpool.Exec.{Exec, pure, lift, reads, modify, ◌>>=◌, ◌>>◌}
use eacrpool.Job.{prune_jobs}
use eacrpool.Work.{
  AcceptedWork, accepted_work_id, fetch_accepted_work, update_work, delete_work,
  prune_accepted_work,
}
use eacrpool.Payment.{Payment, delete_payment}
use eacrpool.Payment.Query.{fetch_pending_payments_at_height}
use eacrpool.PaymentMgr.Schemes.{State, on_db}

abbrev pub max_reorg_limit : ℕ
max_reorg_limit = 6

-- The state of the chain, less the configuration and the channels.
pub record ChainState : Type 0 where
  pub last_work_height : ℕ
  pub current_work : Bytes

abbrev pub new_chain_state : ChainState
new_chain_state = record { last_work_height = 0; current_work = [] }

unfoldable pub fetch_last_work_height : ChainState → ℕ
fetch_last_work_height cs = cs.last_work_height

unfoldable pub set_last_work_height : ℕ → ChainState → ChainState
set_last_work_height height cs = record cs { last_work_height = height }

unfoldable pub set_current_work : Bytes → ChainState → ChainState
set_current_work header_e cs = record cs { current_work = header_e }

unfoldable pub fetch_current_work : ChainState → Bytes
fetch_current_work cs = cs.current_work

-- What the handlers read of a wire.BlockHeader, with the hashes as their strings; `rest` stands for the
-- fields that they do not read.
pub record BlockHeader : Type 0 where
  pub height : ℕ
  pub prev_block : Bytes
  pub block_hash : Bytes
  pub bits : ℕ
  pub rest : Bytes

-- what the handlers read of a wire.MsgBlock: its height, and the values of each transaction's outputs
pub record MsgBlock : Type 0 where
  pub height : ℕ
  pub transactions : List (List Int64)

-- The callbacks of ChainStateConfig, and wire's reading of a header.
pub record ChainStateConfig (B : Bolt) : Type 0 where
  pub solo_pool : Bool
  pub pay_dividends : ℕ → Exec (State B) (Unit {0})
  pub generate_payments : ℕ → Int64 → Exec (State B) (Unit {0})
  pub get_block : Bytes → Result MsgBlock
  pub from_bytes : Bytes → Result BlockHeader

-- The books, whether the pool's context is cancelled, and whether the notification's channel is closed.
pub record Handling (B : Bolt) : Type 0 where
  pub books : State B
  pub cancelled : Bool
  pub closed : Bool

-- `block.Transactions[0].TxOut[2].Value`
unfoldable pub coinbase_of : MsgBlock → Result Int64
coinbase_of block = elim block.transactions [ [] ↦ panic | ◌∷◌ outs _ ↦ third outs ]
  where
    third : List Int64 → Result Int64
    third (a ∷ b ∷ c ∷ _) = ok c
    third _ = panic

module _ {B : Bolt} where
  -- `close(msg.Done)`
  unfoldable pub close_done : Exec (Handling B) (Unit {0})
  close_done h = if h.closed then (panic, h) else (ok tt, record h { closed = true })

  -- The end of a failed branch: the channel is closed, and the context cancelled where the code does so.
  unfoldable pub stop : Bool → Exec (Handling B) (Unit {0})
  unfolding close_done
  stop cancels = do close_done; modify (λ h. if cancels then record h { cancelled = true } else h)

  -- `if err != nil { close(msg.Done); cs.cfg.Cancel(); continue }`, with or without Cancel
  unfoldable pub attempt :
      {A : Type 0}
      → Bool
      → Exec (State B) A
      → (A → Exec (Handling B) (Unit {0}))
      → Exec (Handling B) (Unit {0})
  unfolding stop
  attempt cancels m next h =
      let (r, books) = m h.books in
      let h' = record h { books = books } in
      elim r [ ok a ↦ next a h' | err e ↦ stop cancels h' | panic ↦ (panic, h') ]

  -- The deletion of the payments: the first that fails ends the loop, after the channel is closed.
  unfoldable pub delete_loop : List Payment → Exec (Handling B) (Unit {0})
  unfolding stop
  delete_loop [] h = (ok tt, h)
  delete_loop (pmt ∷ rest) h =
      let (r, books) = on_db (delete_payment pmt) h.books in
      let h' = record h { books = books } in
      let more = delete_loop rest h' in
      elim r [ ok _ ↦ more | err e ↦ stop true h' | panic ↦ (panic, h') ]

module _ {B : Bolt} where
  -- what is due below the reorganisation limit
  abbrev pub prune_below : (ℕ → Exec (State B) (Unit {0})) → ℕ → Exec (State B) (Unit {0})
  prune_below prune height =
      if ltb max_reorg_limit height then prune (height - max_reorg_limit) else pure tt

module _ {B : Bolt} (cfg : ChainStateConfig B) (work_json : Json AcceptedWork)
    (payment_json : Json Payment) where
  unfoldable pub new_payments : BlockHeader → Exec (State B) (Unit {0})
  unfolding coinbase_of
  new_payments header = do
    block ← lift (cfg.get_block header.prev_block)
    coinbase ← lift (coinbase_of block)
    cfg.generate_payments block.height coinbase

  -- `case msg := <-cs.connCh`; FetchAcceptedWork returns no nil work without an error.
  unfoldable pub handle_connected : Bytes → Exec (Handling B) (Unit {0})
  unfolding new_payments
  handle_connected bytes = attempt true (lift (cfg.from_bytes bytes)) (λ header.
      attempt false (cfg.pay_dividends header.height) (λ _.
        attempt true (prune_below (λ limit. on_db (prune_jobs limit)) header.height) (λ _.
          attempt false
            (reads (λ s.
              fetch_accepted_work work_json
                (accepted_work_id header.prev_block ((header.height + 2 ^ 32 - 1) % 2 ^ 32)) s.db))
            (λ work.
              attempt true (on_db (update_work work_json (record work { confirmed = true }))) (λ _.
                attempt true
                  (prune_below (λ limit. on_db (prune_accepted_work work_json limit)) header.height)
                  (λ _.
                    attempt true (if cfg.solo_pool then pure tt else new_payments header)
                      (λ _. close_done)))))))

  -- `case msg := <-cs.discCh`
  unfoldable pub handle_disconnected : Bytes → Exec (Handling B) (Unit {0})
  unfolding delete_loop
  handle_disconnected bytes = attempt true (lift (cfg.from_bytes bytes)) (λ header.
      attempt false
        (reads (λ s.
          fetch_accepted_work work_json (accepted_work_id header.block_hash header.height) s.db))
        (λ work. attempt true (on_db (delete_work work_json work)) (λ _.
          if cfg.solo_pool
          then close_done
          else attempt true
              (reads (λ s. fetch_pending_payments_at_height payment_json header.height s.db))
              (λ payments. delete_loop payments >> close_done))))
