-- ===== src/Tests/Hubs.antt =====
-- A hub with one host's connections over the small store.
use eacrpool.Prelude.{
  ℕ, zero, suc, ◌+◌, ◌%◌, ◌^◌, ◌<◌, ◌*◌, ◌/◌, ◌≡◌, refl, true, false, some, [], ◌∷◌, arith, ◌++◌,
  if◌then◌else◌,
}
use eacrpool.Errors.{ok, err, foreign}
use eacrpool.Bytes.{
  Bytes, equal, hex_encode, hex_digit, hex_decode, put_uint32_be, put_uint64_be, from_hex_char,
  uint32_le,
}
use eacrpool.Bolt.{lookup}
use eacrpool.Ids.{height_to_big_endian_bytes, nano_to_big_endian_bytes}
use eacrpool.Db.{Db, work_bkt, fetch_bucket}
use eacrpool.Db.Records.{find, fetch_value, decoded}
use eacrpool.Job.{generate_job_id, new_job, fetch_job}
use eacrpool.Work.{AcceptedWork, accepted_work_id, new_accepted_work, fetch_accepted_work}
use eacrpool.Share.{Floats}
use eacrpool.PaymentMgr.{PaymentMgrConfig}
use eacrpool.PaymentMgr.Schemes.{State, Clock, generate_payments, pps}
use eacrpool.PaymentMgr.Dividends.{Outside, is_waiting, pay_dividends}
use eacrpool.PaymentMgr.Frames.{generate_payments_frame}
use eacrpool.ChainState.{BlockHeader, MsgBlock, Handling, handle_connected, new_chain_state}
use eacrpool.ChainState.Connected.Confirms.{Ends}
use eacrpool.Hub.{
  Hub, fetch_host_connections, add_connection, remove_connection, has_clients, slice, work_height,
  process_work,
}
use eacrpool.Hub.Connections.{connections_balance}
use eacrpool.Hub.Wiring.{joined, pool_confirms}
use eacrpool.Hub.NewWork.{process_work_stores}
use eacrpool.Tests.Store.{store, insert}
use eacrpool.Tests.Codecs.{
  account_json, job_json, payment_json, share_json, work_json, split, join, close,
}
use eacrpool.Tests.Fixtures.{pool, filled, only_work, only_jobs}

abbrev host : Bytes
host = 104 ∷ []

abbrev hub : Hub
hub = record { clients = 1; connections = (host, 1) ∷ [] }

hub_counts : (j : Bytes) → fetch_host_connections j hub < 2 ^ 32
unfolding fetch_host_connections lookup
hub_counts j = ground arith

connections_balance_example :
    ((remove_connection host (add_connection host hub)).clients ≡ 1)
    × ((j : Bytes)
        → (fetch_host_connections j (add_connection host hub) ≡ (
            if equal host j
            then (fetch_host_connections j hub + 1) % 2 ^ 32
            else fetch_host_connections j hub))
          × (fetch_host_connections j (remove_connection host (add_connection host hub))
              ≡ fetch_host_connections j hub))
connections_balance_example = connections_balance host hub (omega arith) hub_counts

abbrev no_jobs_db : Db store
no_jobs_db = some (pool (only_jobs []))

-- so many zeros in hexadecimal
abbrev zeros : ℕ → Bytes
zeros zero = []
zeros (suc n) = 48 ∷ zeros n

-- a header of height nine
abbrev header_text : Bytes
header_text = zeros 256 ++ 48 ∷ 57 ∷ zeros 102

process_work_stores_example :
    let (r, (cs, d)) = process_work job_json 3 hub header_text (new_chain_state, no_jobs_db) in
    (r ≡ ok tt)
    × (cs.last_work_height ≡ 9)
    × (fetch_job job_json (generate_job_id 3 9) d ≡ ok (new_job 3 header_text 9))
unfolding work_height slice hex_decode from_hex_char uint32_le has_clients generate_job_id
    height_to_big_endian_bytes nano_to_big_endian_bytes hex_encode hex_digit put_uint32_be
    put_uint64_be filled fetch_bucket
process_work_stores_example =
    process_work_stores job_json 3 hub header_text 9 new_chain_state no_jobs_db refl refl
      (omega arith) (filled [], refl) refl

-- whole percentages in place of floating point
abbrev floats : Floats
floats = record { Float = ℕ; float64 = λ r. r.num * 100 / r.den; mul_f64 = λ a f. a * f / 100 }

abbrev cfg : PaymentMgrConfig floats
cfg = record {
  coinbase_maturity = 16;
  pool_fee = 1;
  last_n_period = 60;
  payment_method = pps;
  min_payment = 50;
  pool_fee_addrs = (67 ∷ []) ∷ [];
  max_tx_fee_reserve = 100;
}

abbrev outside : Outside
outside = record {
  net = record { is_address = λ a. true; blake256 = λ a. a };
  is_dust_amount = λ n. false;
  random = 3;
  publish_transaction = λ outputs amount. err foreign;
  clock = λ i j. i + j;
}

abbrev readings : Clock
readings = record { start = 5; query = 6; payment = λ i. 7 + i; prune = 20 }

abbrev mined_work : AcceptedWork
mined_work = new_accepted_work 2 (98 ∷ []) (97 ∷ []) 9 (109 ∷ []) (119 ∷ [])

abbrev books : State store
books = record {
  mgr = record { height = 9; paid_on = 0; created_on = 0; fee_reserve = 0; payment_reqs = [] };
  db = some (pool (only_work ((mined_work.uuid, work_json.marshal mined_work) ∷ [])));
}

generate_payments_frame_example :
    find work_bkt mined_work.uuid
      (generate_payments cfg share_json payment_json readings 9 500 books).1.db
    ≡ find work_bkt mined_work.uuid books.db
generate_payments_frame_example =
    generate_payments_frame cfg share_json payment_json readings work_bkt mined_work.uuid 9 500
      books refl refl

abbrev child : BlockHeader
child = record { height = 10; prev_block = 98 ∷ []; block_hash = 99 ∷ []; bits = 0; rest = [] }

abbrev parent : MsgBlock
parent = record { height = 9; transactions = (1 ∷ 2 ∷ 300 ∷ []) ∷ [] }

abbrev start : Handling store
start = record { books = books; cancelled = false; closed = false }

pool_confirms_example :
    Ends
      (λ h.
        find work_bkt mined_work.uuid h.books.db
        ≡ some (work_json.marshal (record mined_work { confirmed = true })))
      (handle_connected
        (joined false cfg share_json payment_json account_json work_json readings outside
          (λ hash. ok parent)
          (λ bytes. ok child))
        work_json
        payment_json
        []
        start)
unfolding pay_dividends is_waiting new_accepted_work accepted_work_id height_to_big_endian_bytes
    hex_encode hex_digit put_uint32_be filled insert fetch_bucket fetch_accepted_work fetch_value
    decoded lookup split join close equal
pool_confirms_example =
    pool_confirms false cfg share_json payment_json account_json work_json readings outside
      (λ hash. ok parent) (λ bytes. ok child) [] child mined_work start refl refl refl refl
