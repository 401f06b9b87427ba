-- ===== src/Client/Delivery/Reordered.antt =====
-- pool/client.go: the fields of new work as each miner is given them.
use eacrpool.Prelude.{◌≡◌, refl, Bool, true, [], ◌∷◌, ◌++◌, reverse, arith, ◌&&◌, if◌then◌else◌}
use eacrpool.Errors.{ok}
use eacrpool.Bytes.{Bytes, equal_refl, hex_encode}
use eacrpool.Solved.{hex_reversed, reverse_prev_block_words}
use eacrpool.Solved.Reversal.{hex_reversed-hex_encode, reverse_prev_block_words_involutive}
use eacrpool.Difficulty.{Miner, cpu_miner, innosilicon, dr3, dr5, whatsminer}
use eacrpool.Message.{Request, request, notify, as_text, as_bool, as_array, at_index, check_method}
use eacrpool.Message.Requests.{text_at}
use eacrpool.Message.Notifications.{work_notification, parse_work_notification}
use eacrpool.Client.Delivery.{
  Outlet, encode, rebuilt, reordered, miner_work, send_work, send_message,
}

module _ (F : Type 0)
    (job_id prev_block prev_rev gen_tx1 gen_tx2 block_version n_bits n_time : Bytes)
    (clean_job : Bool) (reversed : reverse_prev_block_words prev_block ≡ ok prev_rev) where
  -- the hub's notification of the work
  abbrev work : Request F
  work =
      work_notification job_id prev_block gen_tx1 gen_tx2 block_version (hex_encode n_bits)
        (hex_encode n_time) clean_job

  -- The work for each miner: as it is for the CPU miner, and with the words of the previous block reversed
  -- for the others, of which the Whatsminer alone keeps the order of the bits and the time.
  abbrev pub work_for : Miner → Request F
  work_for cpu_miner = work
  work_for whatsminer =
      work_notification job_id prev_rev gen_tx1 gen_tx2 block_version (hex_encode n_bits)
        (hex_encode n_time) clean_job
  work_for _ =
      work_notification job_id prev_rev gen_tx1 gen_tx2 block_version (hex_encode (reverse n_bits))
        (hex_encode (reverse n_time)) clean_job

  parse-work :
      parse_work_notification work
      ≡ ok (
        job_id,
        prev_block,
        gen_tx1,
        gen_tx2,
        block_version,
        hex_encode n_bits,
        hex_encode n_time,
        clean_job,
      )
  unfolding parse_work_notification work_notification check_method as_array at_index as_text as_bool
      text_at
  parse-work = rw (equal_refl notify) refl

  reordered-work : reordered hex_reversed work ≡ ok (work_for dr3)
  unfolding reordered rebuilt
  reordered-work =
      rw
        (
          reordered,
          parse-work,
          hex_reversed-hex_encode n_bits,
          hex_reversed-hex_encode n_time,
          reversed,
        )
        refl

  miner_work-work : (miner : Miner) → miner_work miner work ≡ ok (work_for miner)
  unfolding miner_work reordered rebuilt
  miner_work-work cpu_miner = refl
  miner_work-work whatsminer = rw (reordered, parse-work, reversed) refl
  miner_work-work innosilicon = reordered-work
  miner_work-work dr3 = reordered-work
  miner_work-work dr5 = reordered-work

  -- Where the previous block has whole words, and the bits and the time are hexadecimal, the work that
  -- the hub posts is written to an authorized and subscribed client once, in the order of bytes that its
  -- miner needs, and to no other client; the miner gets the previous block back by reversing the words
  -- of what it is sent.
  pub send_message_reorders :
      (miner : Miner) (o : Outlet F)
      → (send_message miner true (request work) o ≡ (
          if o.client.authorized && o.client.subscribed
          then (ok tt, record o { written = o.written ++ request (work_for miner) ∷ [] })
          else (ok tt, o)))
        × (reverse_prev_block_words prev_rev ≡ ok prev_block)
  unfolding send_message send_work encode work_notification
  send_message_reorders miner o =
      (sent, reverse_prev_block_words_involutive prev_block prev_rev reversed)
    where
      sent : send_message miner true (request work) o ≡ (
          if o.client.authorized && o.client.subscribed
          then (ok tt, record o { written = o.written ++ request (work_for miner) ∷ [] })
          else (ok tt, o))
      sent = ground (arith, equal_refl notify, miner_work-work miner)
