-- ===== src/Hub.antt =====
-- pool/hub.go: the connection counts, the work that comes from the daemon, the pool's mode and secret,
-- and how NewHub joins the payment manager to the chain state.
pub mod Connections
pub mod Secret
pub mod Wiring
pub mod NewWork
pub mod Clients
use eacrpool.Prelude.{
  ℕ, ◌+◌, ◌-◌, ◌%◌, ◌^◌, ◌==◌, ltb, Bool, true, false, not, ◌&&◌, Option, none, some, List, [],
  length, take, drop, if◌then◌else◌,
}
use eacrpool.Errors.{Result, ok, err, panic}
use eacrpool.Bytes.{Bytes, equal, hex_decode, uint32_le, put_uint32_le}
use eacrpool.Bolt.{Bolt, lookup}
use eacrpool.Map.{set_key}
use eacrpool.Json.{Json}
use eacrpool.Db.{Db, Tx, update, put, pool_bucket, write_values}
use eacrpool.Db.Buckets.{solo_pool, csrf_secret}
use eacrpool.Account.{Account, fetch_account}
use eacrpool.Job.{Job, new_job, create_job}
use eacrpool.Payment.{Payment}
use eacrpool.Share.{Share, Tally, Floats}
use eacrpool.PaymentMgr.{PaymentMgrConfig}
use eacrpool.PaymentMgr.Schemes.{
  State, Clock, pps, pplns, pps_share_percentages, pplns_share_percentages, generate_payments,
}
use eacrpool.PaymentMgr.Dividends.{Outside, pay_dividends}
use eacrpool.ChainState.{ChainState, BlockHeader, MsgBlock, ChainStateConfig, set_last_work_height}

-- The counts of a Hub: `clients` is an int32, and each host's count a uint32.
pub record Hub : Type 0 where
  pub clients : ℕ
  pub connections : List (Bytes × ℕ)

-- `h.connections[host]`
unfoldable pub fetch_host_connections : Bytes → Hub → ℕ
fetch_host_connections host h = elim (lookup host h.connections) [ none ↦ 0 | some n ↦ n ]

unfoldable pub add_connection : Bytes → Hub → Hub
unfolding fetch_host_connections
add_connection host h = record {
  clients = (h.clients + 1) % 2 ^ 32;
  connections = set_key host ((fetch_host_connections host h + 1) % 2 ^ 32) h.connections;
}

unfoldable pub remove_connection : Bytes → Hub → Hub
unfolding fetch_host_connections
remove_connection host h = record {
  clients = (h.clients + 2 ^ 32 - 1) % 2 ^ 32;
  connections = set_key host ((fetch_host_connections host h + 2 ^ 32 - 1) % 2 ^ 32) h.connections;
}

unfoldable pub has_clients : Hub → Bool
has_clients h = not (h.clients == 0) && ltb h.clients (2 ^ 31)

-- `s[i:j]`, which panics past the end
unfoldable pub slice : ℕ → ℕ → Bytes → Result Bytes
slice i j s = if ltb (length s) j then panic else ok (take (j - i) (drop i s))

-- The height of new work, in little endian between its characters 256 and 264. A header that does not
-- decode is left alone.
unfoldable pub work_height : Bytes → Result (Option ℕ)
unfolding slice
work_height header_e = elim (slice 256 264 header_e) [
  | err e ↦ err e
  | panic ↦ panic
  | ok s ↦ elim (hex_decode s) [
    | none ↦ ok none
    | some b ↦ elim (uint32_le b) [ none ↦ panic | some h ↦ ok (some h) ]
  ]
]

module _ {B : Bolt} where
  -- `persistPoolMode`; the pool bucket is not tested for nil.
  unfoldable pub persist_pool_mode : ℕ → Tx B (Unit {0})
  unfolding put
  persist_pool_mode mode none = panic
  persist_pool_mode mode (some p) = elim (put B p.values solo_pool (put_uint32_le mode)) [
    | ok b ↦ write_values b (some p)
    | err e ↦ err e
    | panic ↦ panic
  ]

  -- The secret that is stored, or the random one, which is stored. `random` is what rand.Read gives.
  unfoldable pub csrf_secret_tx : Result Bytes → Tx B Bytes
  unfolding pool_bucket put
  csrf_secret_tx random d = elim (pool_bucket d) [
    | err e ↦ err e
    | panic ↦ panic
    | ok p ↦ elim (lookup csrf_secret (B.entries p.values)) [
      | some v ↦ ok (v, d)
      | none ↦ elim random [
        | err e ↦ err e
        | panic ↦ panic
        | ok secret ↦ elim (put B p.values csrf_secret secret) [
          | ok b ↦ ok (secret, some (record p { values = b }))
          | err e ↦ err e
          | panic ↦ panic
        ]
      ]
    ]
  ]

  unfoldable pub fetch_csrf_secret : Result Bytes → Db B → Result Bytes × Db B
  unfolding csrf_secret_tx update
  fetch_csrf_secret random = update (csrf_secret_tx random)

  -- whether FetchAccount finds the account
  unfoldable pub account_exists : Json Account → Bytes → Db B → Bool
  account_exists json account_id d = elim (fetch_account json account_id d) [
    | ok _ ↦ true
    | _ ↦ false
  ]

  -- The percentages of the scheme in use, each with its account; there are none in solo mode and for an
  -- unknown scheme.
  unfoldable pub fetch_work_quotas : Bool → Bytes → ℕ → Json Share → ℕ → State B → Result Tally
  fetch_work_quotas solo method last_n_period json now s =
      if solo
      then ok []
      else if equal method pps
      then pps_share_percentages json now s
      else if equal method pplns
      then pplns_share_percentages json last_n_period now s
      else ok []

  -- `processWork`, up to the notifications: where there are clients, the work is stored as a job. The
  -- slices of the notification need 360 characters.
  unfoldable pub process_work :
      Json Job → ℕ → Hub → Bytes → ChainState × Db B → Result (Unit {0}) × (ChainState × Db B)
  unfolding work_height
  process_work json now h header_e (cs, d) = elim (work_height header_e) [
    | err e ↦ (err e, (cs, d))
    | panic ↦ (panic, (cs, d))
    | ok none ↦ (ok tt, (cs, d))
    | ok (some height) ↦
        let cs' = set_last_work_height height cs in
        let d' = (create_job json (new_job now header_e height) d).1 in
        if has_clients h
        then (if ltb (length header_e) 360 then (panic, (cs', d)) else (ok tt, (cs', d')))
        else (ok tt, (cs', d))
  ]

-- The configuration of the chain state that NewHub makes: its callbacks are the payment manager's.
unfoldable pub chain_state_config :
    {B : Bolt} {F : Floats}
    → Bool
    → PaymentMgrConfig F
    → Json Share
    → Json Payment
    → Json Account
    → Clock
    → Outside
    → (Bytes → Result MsgBlock)
    → (Bytes → Result BlockHeader)
    → ChainStateConfig B
chain_state_config solo cfg share_json payment_json account_json clock out get_block from_bytes =
    record {
      solo_pool = solo;
      pay_dividends = pay_dividends cfg payment_json account_json out;
      generate_payments = generate_payments cfg share_json payment_json clock;
      get_block = get_block;
      from_bytes = from_bytes;
    }
