-- ===== src/Client/Delivery.antt =====
-- pool/client.go, send: what is written to the connection of the messages for the client, with the
-- fields of new work in the order of bytes that its miner needs.
pub mod Reordered
use eacrpool.Prelude.{ℕ, ◌==◌, Bool, true, false, not, ◌||◌, List, [], ◌∷◌, ◌++◌, if◌then◌else◌}
use eacrpool.Errors.{Result, ok, err, panic, ◌>>=◌, ◌>>◌}
use eacrpool.Bytes.{Bytes, equal}
use eacrpool.Bolt.{Bolt}
use eacrpool.Exec.{Exec}
use eacrpool.Solved.{hex_reversed, reverse_prev_block_words}
use eacrpool.Difficulty.{Miner, cpu_miner, innosilicon, dr3, dr5, whatsminer}
use eacrpool.Message.{Message, Request, request, response, notify}
use eacrpool.Message.Notifications.{work_notification, parse_work_notification}
use eacrpool.Client.{Client}

-- The connection as the sender sees it: the client, and the messages written so far.
pub record Outlet (F : Type 0) : Type 0 where
  pub client : Client
  pub written : List (Message F)

module _ {F : Type 0} where
  abbrev pub cancel_outlet : Exec (Outlet F) (Unit {0})
  cancel_outlet o = (ok tt, record o { client = record o.client { cancelled = true } })

  -- `c.encoder.Encode`, whose failure cancels the client; `writes` is whether it succeeds.
  unfoldable pub encode : Bool → Message F → Exec (Outlet F) (Unit {0})
  encode writes msg o =
      if writes then (ok tt, record o { written = o.written ++ msg ∷ [] }) else cancel_outlet o

  -- The work with the order of bytes that a miner needs of the bits and the time.
  unfoldable pub rebuilt :
      (Bytes → Result Bytes)
      → Bytes × Bytes × Bytes × Bytes × Bytes × Bytes × Bytes × Bool
      → Result (Request F)
  rebuilt order (job_id, prev_block, gen_tx1, gen_tx2, block_version, n_bits, n_time, clean_job) =
      do
        n_bits_rev ← order n_bits
        n_time_rev ← order n_time
        prev_block_rev ← reverse_prev_block_words prev_block
        ok (
            work_notification job_id prev_block_rev gen_tx1 gen_tx2 block_version n_bits_rev
              n_time_rev clean_job)

  -- What cannot be parsed is logged, and goes on as empty texts.
  unfoldable pub reordered : (Bytes → Result Bytes) → Request F → Result (Request F)
  unfolding rebuilt
  reordered order req = elim (parse_work_notification req) [
    | ok fields ↦ rebuilt order fields
    | err e ↦ rebuilt order ([], [], [], [], [], [], [], false)
    | panic ↦ panic
  ]

  -- handleCPUWork, handleAntminerDR3Work, handleInnosiliconD9Work and handleWhatsminerD1Work
  unfoldable pub miner_work : Miner → Request F → Result (Request F)
  unfolding reordered
  miner_work cpu_miner req = ok req
  miner_work whatsminer req = reordered (λ s. ok s) req
  miner_work _ req = reordered hex_reversed req

  -- The result of the preparation is written; an error of it cancels the client.
  unfoldable pub send_work : Miner → Bool → Request F → Exec (Outlet F) (Unit {0})
  unfolding miner_work encode
  send_work miner writes req o = elim (miner_work miner req) [
    | ok prepared ↦ encode writes (request prepared) o
    | err e ↦ cancel_outlet o
    | panic ↦ (panic, o)
  ]

  -- One message of the channel; work goes to authorized and subscribed clients only.
  unfoldable pub send_message : Miner → Bool → Message F → Exec (Outlet F) (Unit {0})
  unfolding encode send_work
  send_message miner writes (response resp) o = encode writes (response resp) o
  send_message miner writes (request req) o =
      if equal req.method notify
      then (if not o.client.authorized || not o.client.subscribed
          then (ok tt, o)
          else send_work miner writes req o)
      else encode writes (request req) o
