-- ===== src/Payment.antt =====
-- pool/payment.go: payments due to accounts, and their storage.
pub mod Bundle
pub mod Query
pub mod Details
pub mod Archive
use eacrpool.Prelude.{ℕ, [], ◌++◌}
use eacrpool.Errors.{Result}
use eacrpool.Bytes.{Bytes, hex_encode}
use eacrpool.Bolt.{Bolt}
use eacrpool.Int64.{Int64}
use eacrpool.Json.{Json}
use eacrpool.Ids.{nano_to_big_endian_bytes}
use eacrpool.Db.{Db, payment_bkt, update}
use eacrpool.Db.Buckets.{delete_entry}
use eacrpool.Db.Records.{fetch_value, put_value}

pub record Payment : Type 0 where
  pub account : Bytes
  pub estimated_maturity : ℕ
  pub height : ℕ
  pub amount : Int64
  pub created_on : ℕ
  pub paid_on_height : ℕ
  pub transaction_id : Bytes

-- `now` is the clock in nanoseconds.
unfoldable pub new_payment : ℕ → Bytes → Int64 → ℕ → ℕ → Payment
new_payment now account amount height est_maturity = record {
  account = account;
  estimated_maturity = est_maturity;
  height = height;
  amount = amount;
  created_on = now;
  paid_on_height = 0;
  transaction_id = [];
}

-- The height is a parameter that the id does not use.
unfoldable pub generate_payment_id : ℕ → ℕ → Bytes → Bytes
unfolding nano_to_big_endian_bytes
generate_payment_id created_on_nano height account =
    hex_encode (nano_to_big_endian_bytes created_on_nano) ++ account

abbrev pub payment_id : Payment → Bytes
payment_id pmt = generate_payment_id pmt.created_on pmt.height pmt.account

module _ {B : Bolt} where
  unfoldable pub get_payment : Json Payment → Bytes → Db B → Result Payment
  get_payment json id = fetch_value json payment_bkt id

  -- `Create`
  unfoldable pub create_payment : Json Payment → Payment → Db B → Result (Unit {0}) × Db B
  create_payment json pmt = update (put_value payment_bkt (payment_id pmt) (json.marshal pmt))

  -- `Update`
  unfoldable pub update_payment : Json Payment → Payment → Db B → Result (Unit {0}) × Db B
  unfolding create_payment
  update_payment json pmt = create_payment json pmt

  -- `Delete`
  unfoldable pub delete_payment : Payment → Db B → Result (Unit {0}) × Db B
  delete_payment pmt = delete_entry payment_bkt (payment_id pmt)
