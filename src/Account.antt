-- ===== src/Account.antt =====
-- pool/account.go: pool accounts, whose id is the hash of their address.
use eacrpool.Prelude.{ℕ, Bool, if◌then◌else◌}
use eacrpool.Errors.{Result, ok, err, panic, foreign, make_error, not_supported}
use eacrpool.Bytes.{Bytes, hex_encode}
use eacrpool.Bolt.{Bolt}
use eacrpool.Json.{Json}
use eacrpool.Db.{Db, account_bkt, update}
use eacrpool.Db.Buckets.{delete_entry}
use eacrpool.Db.Records.{fetch_value, put_value}

pub record Account : Type 0 where
  pub uuid : Bytes
  pub address : Bytes
  pub created_on : ℕ

-- What account ids rest on outside the repository: whether dcrutil.DecodeAddress takes an address
-- on the active network, and the blake256 hash.
pub record Network : Type 0 where
  pub is_address : Bytes → Bool
  pub blake256 : Bytes → Bytes

module _ (net : Network) where
  unfoldable pub account_id : Bytes → Result Bytes
  account_id address =
      if net.is_address address then ok (hex_encode (net.blake256 address)) else err foreign

  -- `now` is the clock in seconds.
  unfoldable pub new_account : ℕ → Bytes → Result Account
  unfolding account_id
  new_account now address = elim (account_id address) [
    | err e ↦ err e
    | panic ↦ panic
    | ok id ↦ ok (record { uuid = id; address = address; created_on = now })
  ]

module _ {B : Bolt} where
  unfoldable pub fetch_account : Json Account → Bytes → Db B → Result Account
  fetch_account json id = fetch_value json account_bkt id

  -- `Create`
  unfoldable pub create_account : Json Account → Account → Db B → Result (Unit {0}) × Db B
  create_account json acc = update (put_value account_bkt acc.uuid (json.marshal acc))

  -- `Update`
  unfoldable pub update_account : Account → Db B → Result (Unit {0}) × Db B
  update_account acc d = (err (make_error not_supported), d)

  -- `Delete`
  unfoldable pub delete_account : Account → Db B → Result (Unit {0}) × Db B
  delete_account acc = delete_entry account_bkt acc.uuid
