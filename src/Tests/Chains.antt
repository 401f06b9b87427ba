-- ===== src/Tests/Chains.antt =====
-- A block of height nine that the pool mined, connected and disconnected.
use eacrpool.Prelude.{◌≡◌, refl, true, false, ◌&&◌, none, some, [], ◌∷◌, map, if◌then◌else◌}
use eacrpool.Errors.{ok}
use eacrpool.Bytes.{Bytes, hex_encode, hex_digit, put_uint32_be, put_uint64_be, equal, less}
use eacrpool.Bolt.{lookup}
use eacrpool.Ids.{height_to_big_endian_bytes, nano_to_big_endian_bytes}
use eacrpool.Exec.{pure}
use eacrpool.Db.{BucketName, work_bkt, payment_bkt, fetch_bucket, same_name}
use eacrpool.Db.Prune.{member}
use eacrpool.Db.Records.{find, fetch_value, decoded}
use eacrpool.Work.{AcceptedWork, accepted_work_id, new_accepted_work, fetch_accepted_work}
use eacrpool.Payment.{Payment, new_payment, generate_payment_id, payment_id}
use eacrpool.PaymentMgr.{PaymentMgr}
use eacrpool.ChainState.{
  BlockHeader, ChainStateConfig, Handling, handle_connected, handle_disconnected,
}
use eacrpool.ChainState.Connected.{handled, ends, connected_calls, handle_connected_closes}
use eacrpool.ChainState.Connected.Confirms.{Ends, handle_connected_confirms}
use eacrpool.ChainState.Disconnected.{handle_disconnected_exact}
use eacrpool.Tests.Store.{Pairs, store, insert}
use eacrpool.Tests.Codecs.{work_json, payment_json, split, join, close}
use eacrpool.Tests.Fixtures.{pool, filled}

abbrev mined_work : AcceptedWork
mined_work = new_accepted_work 2 (98 ∷ []) (97 ∷ []) 9 (109 ∷ []) (119 ∷ [])

abbrev due : Payment
due = new_payment 1 (120 ∷ []) 30 9 25

abbrev other : Payment
other = new_payment 2 (120 ∷ []) 12 8 24

abbrev pairs : BucketName → Pairs
pairs work_bkt = (mined_work.uuid, work_json.marshal mined_work) ∷ []
pairs payment_bkt =
    (payment_id due, payment_json.marshal due) ∷ (payment_id other, payment_json.marshal other) ∷ []
pairs _ = []

abbrev mgr : PaymentMgr
mgr = record { height = 0; paid_on = 0; created_on = 0; fee_reserve = 0; payment_reqs = [] }

abbrev start : Handling store
start = record {
  books = record { mgr = mgr; db = some (pool pairs) };
  cancelled = false;
  closed = false;
}

-- the block itself is disconnected, and a child of it connected
abbrev cfg_of : BlockHeader → ChainStateConfig store
cfg_of header = record {
  solo_pool = false;
  pay_dividends = λ height. pure tt;
  generate_payments = λ height coinbase. pure tt;
  get_block = λ hash. ok (record { height = 9; transactions = (1 ∷ 2 ∷ 3 ∷ []) ∷ [] });
  from_bytes = λ bytes. ok header;
}

abbrev the_block : BlockHeader
the_block = record { height = 9; prev_block = 97 ∷ []; block_hash = 98 ∷ []; bits = 0; rest = [] }

abbrev child : BlockHeader
child = record { height = 10; prev_block = 98 ∷ []; block_hash = 99 ∷ []; bits = 0; rest = [] }

handle_disconnected_exact_example :
    let (r, h) = handle_disconnected (cfg_of the_block) work_json payment_json [] start in
    (r ≡ ok tt)
    × (h.closed ≡ true)
    × (h.cancelled ≡ false)
    × ((m : BucketName) (j : Bytes)
        → find m j h.books.db ≡ (
            if same_name work_bkt m && equal mined_work.uuid j
            then none
            else if same_name payment_bkt m && member j (map payment_id (due ∷ []))
            then none
            else find m j start.books.db))
unfolding new_accepted_work accepted_work_id new_payment generate_payment_id
    height_to_big_endian_bytes nano_to_big_endian_bytes hex_encode hex_digit put_uint32_be
    put_uint64_be less filled insert fetch_bucket fetch_accepted_work fetch_value decoded lookup
    split join close equal
handle_disconnected_exact_example =
    handle_disconnected_exact (cfg_of the_block) work_json payment_json [] the_block mined_work
      start (due ∷ other ∷ []) refl refl refl refl (refl, (refl, tt)) refl

handle_connected_closes_example :
    let (r, h) = handle_connected (cfg_of child) work_json payment_json [] start in
    let (called, books) = connected_calls (cfg_of child) work_json payment_json [] start.books in
    (r ≡ handled called) × (h.books ≡ books) × (h.closed ≡ ends called)
handle_connected_closes_example =
    handle_connected_closes (cfg_of child) work_json payment_json [] start refl

handle_connected_confirms_example :
    Ends
      (λ h.
        find work_bkt mined_work.uuid h.books.db
        ≡ some (work_json.marshal (record mined_work { confirmed = true })))
      (handle_connected (cfg_of child) work_json payment_json [] start)
unfolding new_accepted_work accepted_work_id height_to_big_endian_bytes hex_encode hex_digit
    put_uint32_be filled insert fetch_bucket fetch_accepted_work fetch_value decoded lookup split
    join close equal
handle_connected_confirms_example =
    handle_connected_confirms (cfg_of child) work_json payment_json [] child mined_work start refl
      refl refl refl (λ height coinbase t. refl)
