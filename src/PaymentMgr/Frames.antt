-- ===== src/PaymentMgr/Frames.antt =====
-- pool/paymentmgr.go, generatePayments: the parts of the database that it writes.
use eacrpool.Prelude.{
  ℕ, ◌+◌, ◌%◌, ◌^◌, ◌==◌, ◌≡◌, refl, false, none, some, List, [], ◌∷◌, arith, inl, inr, Bool-cases,
  if◌then◌else◌,
}
use eacrpool.Errors.{result_cases}
use eacrpool.Bytes.{Bytes, equal}
use eacrpool.Bolt.{Bolt}
use eacrpool.Int64.{Int64}
use eacrpool.Json.{Json}
use eacrpool.Db
use eacrpool.Db.{
  BucketName, Db, Tx, share_bkt, payment_bkt, same_name, same_name-eq, update, fetch_bucket, put,
  pool_bucket,
}
use eacrpool.Db.Records.{find, put_value}
use eacrpool.Db.Prune.{prune_tx}
use eacrpool.Share.{Share, Tally, Floats, prune_shares_tx, calculate_payments}
use eacrpool.Payment.{Payment, payment_id, create_payment}
use eacrpool.PaymentMgr.{
  PaymentMgrConfig, PaymentMgr, put_pool_value, persist_last_payment_created_on,
}
use eacrpool.PaymentMgr.Schemes.{
  State, Clock, create_payments, settle, pay_per_share, pay_per_last_n_shares, generate_payments,
  pps_share_percentages, pplns_share_percentages, pps, pplns, last_created_on, seconds_before,
}

module _ {B : Bolt} (m : BucketName) (j : Bytes) where
  find-put_value-other :
      (n : BucketName) (k v : Bytes) (d : Db B)
      → same_name n m ≡ false
      → find m j (update (put_value n k v) d).1 ≡ find m j d
  unfolding put_value put update fetch_bucket
  find-put_value-other n k v none other = ground arith
  find-put_value-other n k v (some p) other = ground arith

  find-create_payments :
      (json : Json Payment) (ps : List Payment) (d : Db B)
      → same_name payment_bkt m ≡ false
      → find m j (create_payments json ps d).1 ≡ find m j d
  unfolding create_payments create_payment
  find-create_payments json [] d other = refl
  find-create_payments json (p ∷ ps) d other =
      let d' = (create_payment json p d).1 in
      ground (
        arith,
        find-put_value-other payment_bkt (payment_id p) (json.marshal p) d other,
        find-create_payments json ps d' other,
      )

  find-persist :
      (pm : PaymentMgr) (min_nano : ℕ) (d : Db B)
      → same_name share_bkt m ≡ false
      → find m j
          (update (Db.◌>>◌ (persist_last_payment_created_on pm) (prune_shares_tx min_nano)) d).1
        ≡ find m j d
  unfolding update persist_last_payment_created_on put_pool_value put prune_shares_tx prune_tx
      fetch_bucket pool_bucket
  find-persist pm min_nano none other = refl
  find-persist pm min_nano (some p) other = ground arith

module _ {B : Bolt} {F : Floats} (cfg : PaymentMgrConfig F) (share_json : Json Share)
    (payment_json : Json Payment) (clock : Clock) (m : BucketName) (j : Bytes) where
  find-settle :
      (percentages : Tally) (coinbase : Int64) (height est_maturity min_nano : ℕ) (s : State B)
      → same_name payment_bkt m ≡ false
      → same_name share_bkt m ≡ false
      → find m j
          (settle cfg share_json payment_json clock percentages coinbase height est_maturity
            min_nano s).1.db
        ≡ find m j s.db
  unfolding settle
  find-settle percentages coinbase height est_maturity min_nano s no_payment no_share =
      let payments =
        calculate_payments F clock.payment percentages coinbase cfg.pool_fee height est_maturity in
      let d = (create_payments payment_json payments s.db).1 in
      let pm = record s.mgr { created_on = last_created_on 0 payments } in
      ground (
        arith,
        find-create_payments m j payment_json payments s.db no_payment,
        find-persist m j pm min_nano d no_share,
      )

  -- Whatever comes of generating payments, every key of a bucket other than those of payments and
  -- shares keeps its value.
  pub generate_payments_frame :
      (height : ℕ) (coinbase : Int64) (s : State B)
      → same_name payment_bkt m ≡ false
      → same_name share_bkt m ≡ false
      → find m j (generate_payments cfg share_json payment_json clock height coinbase s).1.db
        ≡ find m j s.db
  unfolding generate_payments pay_per_share pay_per_last_n_shares
  generate_payments_frame height coinbase s no_payment no_share =
      elim (Bool-cases (equal cfg.payment_method pps)) [
        | inl by_share ↦ elim (result_cases (pps_share_percentages share_json clock.query s)) [
          | inl (t, counted) ↦ ground (
            arith,
            find-settle t coinbase height ((height + cfg.coinbase_maturity) % 2 ^ 32) clock.start s
                no_payment no_share,
          )
          | inr (inl (e, failed)) ↦ ground arith
          | inr (inr failed) ↦ ground arith
        ]
        | inr not_pps ↦ elim (Bool-cases (equal cfg.payment_method pplns)) [
          | inl by_last ↦
              elim (result_cases
                (pplns_share_percentages share_json cfg.last_n_period clock.query s)) [
                  | inl (t, counted) ↦ ground (
                    arith,
                    find-settle t coinbase height
                        (if cfg.coinbase_maturity == 0
                          then height
                          else (height + cfg.coinbase_maturity) % 2 ^ 32)
                        (seconds_before cfg.last_n_period clock.prune) s no_payment no_share,
                  )
                  | inr (inl (e, failed)) ↦ ground arith
                  | inr (inr failed) ↦ ground arith
                ]
          | inr unknown ↦ ground arith
        ]
      ]
