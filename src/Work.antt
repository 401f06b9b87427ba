-- ===== src/Work.antt =====
-- pool/acceptedwork.go: work that the network accepted, and mined work, which a connected block has
-- confirmed.
pub mod Updates
pub mod Pruning
pub mod Listing
use eacrpool.Prelude.{
  ℕ, zero, Bool, false, not, none, some, List, [], ◌∷◌, ◌++◌, ltb, ◌&&◌, reverse, length, ◌==◌,
  if◌then◌else◌,
}
use eacrpool.Errors.{Result, ok, err, panic, make_error, work_exists, work_not_found, ◌>>=◌}
use eacrpool.Bytes.{Bytes, equal, hex_encode}
use eacrpool.Bolt.{Bolt, lookup}
use eacrpool.Json.{Json}
use eacrpool.Ids.{height_to_big_endian_bytes, big_endian_bytes_to_height, decode_prefix}
use eacrpool.Db.{Db, Tx, work_bkt, fetch_bucket, update, write, put}
use eacrpool.Db.Buckets.{delete_entry}
use eacrpool.Db.Records.{decoded, fetch_value}
use eacrpool.Db.Prune.{prune_tx}

pub record AcceptedWork : Type 0 where
  pub uuid : Bytes
  pub block_hash : Bytes
  pub prev_hash : Bytes
  pub height : ℕ
  pub mined_by : Bytes
  pub miner : Bytes
  pub created_on : ℕ
  pub confirmed : Bool

unfoldable pub accepted_work_id : Bytes → ℕ → Bytes
unfolding height_to_big_endian_bytes
accepted_work_id block_hash block_height =
    hex_encode (height_to_big_endian_bytes block_height) ++ block_hash

-- `now` is the clock in seconds.
unfoldable pub new_accepted_work : ℕ → Bytes → Bytes → ℕ → Bytes → Bytes → AcceptedWork
unfolding accepted_work_id
new_accepted_work now block_hash prev_hash height mined_by miner = record {
  uuid = accepted_work_id block_hash height;
  block_hash = block_hash;
  prev_hash = prev_hash;
  height = height;
  mined_by = mined_by;
  miner = miner;
  created_on = now;
  confirmed = false;
}

module _ (json : Json AcceptedWork) where
  module _ {B : Bolt} where
    unfoldable pub fetch_accepted_work : Bytes → Db B → Result AcceptedWork
    fetch_accepted_work id = fetch_value json work_bkt id

    unfoldable pub create_work_tx : AcceptedWork → Tx B (Unit {0})
    create_work_tx work d = elim (fetch_bucket work_bkt d) [
      | err e ↦ err e
      | panic ↦ panic
      | ok b ↦ elim (lookup work.uuid (B.entries b)) [
        | some v ↦ err (make_error work_exists)
        | none ↦ elim (put B b work.uuid (json.marshal work)) [
          | ok b' ↦ write work_bkt b' d
          | err e ↦ err e
          | panic ↦ panic
        ]
      ]
    ]

    -- `Create`
    unfoldable pub create_work : AcceptedWork → Db B → Result (Unit {0}) × Db B
    unfolding create_work_tx
    create_work work = update (create_work_tx work)

    unfoldable pub update_work_tx : AcceptedWork → Tx B (Unit {0})
    update_work_tx work d = elim (fetch_bucket work_bkt d) [
      | err e ↦ err e
      | panic ↦ panic
      | ok b ↦ elim (lookup work.uuid (B.entries b)) [
        | none ↦ err (make_error work_not_found)
        | some v ↦ elim (put B b work.uuid (json.marshal work)) [
          | ok b' ↦ write work_bkt b' d
          | err e ↦ err e
          | panic ↦ panic
        ]
      ]
    ]

    -- `Update`
    unfoldable pub update_work : AcceptedWork → Db B → Result (Unit {0}) × Db B
    unfolding update_work_tx
    update_work work = update (update_work_tx work)

    -- `Delete`
    unfoldable pub delete_work : AcceptedWork → Db B → Result (Unit {0}) × Db B
    delete_work work = delete_entry work_bkt work.uuid

  -- The loop of ListMinedWork and listMinedWorkByAccount, over the entries from the last to the
  -- first: `taken` is minedWork, and the loop returns when it has `n`.
  unfoldable pub list_loop :
      (AcceptedWork → Bool)
      → ℕ
      → List AcceptedWork
      → List (Bytes × Bytes)
      → Result (List AcceptedWork)
  list_loop wanted n taken [] = ok taken
  list_loop wanted n taken ((k, v) ∷ rest) = elim (decoded json v) [
    | err e ↦ err e
    | panic ↦ panic
    | ok work ↦
        let taken' = taken ++ work ∷ [] in
        let more = list_loop wanted n taken' rest in
        let skip = list_loop wanted n taken rest in
        if wanted work then (if length taken' == n then ok taken' else more) else skip
  ]

  module _ {B : Bolt} where
    list_work : (AcceptedWork → Bool) → ℕ → Db B → Result (List AcceptedWork)
    unfolding list_loop
    list_work wanted zero d = ok []
    list_work wanted n d = elim (fetch_bucket work_bkt d) [
      | err e ↦ err e
      | panic ↦ panic
      | ok b ↦ list_loop wanted n [] (reverse (B.entries b))
    ]

    unfoldable pub list_mined_work : ℕ → Db B → Result (List AcceptedWork)
    unfolding list_work
    list_mined_work n d = list_work (λ work. work.confirmed) n d

    unfoldable pub list_mined_work_by_account : Bytes → ℕ → Db B → Result (List AcceptedWork)
    unfolding list_work
    list_mined_work_by_account account_id n d =
        list_work (λ work. equal work.mined_by account_id && work.confirmed) n d

  -- whether PruneAcceptedWork notes the key of an entry for deletion
  unfoldable pub is_work_stale : ℕ → Bytes × Bytes → Result Bool
  is_work_stale height (k, v) = decode_prefix k >>= λ b.
      big_endian_bytes_to_height b >>= λ work_height.
      if ltb work_height height
      then (decoded json v >>= λ work. ok (not work.confirmed))
      else ok false

  unfoldable pub prune_accepted_work : {B : Bolt} → ℕ → Db B → Result (Unit {0}) × Db B
  prune_accepted_work height = update (prune_tx work_bkt (is_work_stale height))
