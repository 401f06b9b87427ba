-- ===== src/PaymentMgr/Dividends/Paid.antt =====
-- pool/paymentmgr.go, payDividends: the state after a payout.
use eacrpool.Prelude.{
  ℕ, suc, ◌≡◌, refl, ap, false, ◌||◌, none, some, List, [], ◌∷◌, ◌++◌, map, arith, inl, inr,
  if◌then◌else◌,
}
use eacrpool.Errors.{ok, result_cases}
use eacrpool.Bytes.{Bytes}
use eacrpool.Bolt.{Bolt}
use eacrpool.Json.{Json}
use eacrpool.Account.{Account}
use eacrpool.Share.{Floats}
use eacrpool.Db
use eacrpool.Db.{
  BucketName, Db, payment_bkt, payment_archive_bkt, same_name, update, fetch_bucket, write,
  delete_all, put, pool_bucket,
}
use eacrpool.Db.Records.{find}
use eacrpool.Db.Prune.{member, lookup-delete_all}
use eacrpool.Payment.{Payment, payment_id}
use eacrpool.Payment.Bundle.{PaymentBundle, update_as_paid, as_paid}
use eacrpool.Payment.Details.{generate_payment_details}
use eacrpool.Payment.Archive.{archived_at, archive_loop, archive_payments, archive_payments_tx}
use eacrpool.PaymentMgr.{
  PaymentMgrConfig, PaymentMgr, put_pool_value, persist_tx_fee_reserve, persist_last_payment_height,
  persist_last_payment_paid_on,
}
use eacrpool.PaymentMgr.Schemes.{State}
use eacrpool.PaymentMgr.Eligible.{fetch_eligible_payment_bundles}
use eacrpool.PaymentMgr.Dividends.{
  Outside, pick_address, all_addresses, apply_reserve, is_waiting, archive_bundles, persist_payment,
  pay_bundles, pay_dividends,
}

-- the ids of the payments of the bundles
abbrev pub ids_of : List PaymentBundle → List Bytes
ids_of [] = []
ids_of (b ∷ bs) = map payment_id b.payments ++ ids_of bs

member-append :
    (j : Bytes) (ks ls : List Bytes) → member j (ks ++ ls) ≡ (member j ks || member j ls)
unfolding member
member-append j [] ls = refl
member-append j (k ∷ ks) ls = ground (arith, member-append j ks ls)

ids_as_paid :
    (height : ℕ) (txid : Bytes) (ps : List Payment)
    → map payment_id (map (as_paid height txid) ps) ≡ map payment_id ps
ids_as_paid height txid [] = refl
ids_as_paid height txid (p ∷ ps) = ap (◌∷◌ (payment_id p)) (ids_as_paid height txid ps)

archive_loop-deletes :
    (B : Bolt) (json : Json Payment) (clock : ℕ → ℕ) (i : ℕ) (ps : List Payment) (pb ab : B.Bucket)
    (r : B.Bucket × B.Bucket)
    → archive_loop B json clock i ps pb ab ≡ ok r
    → r.0 ≡ delete_all B pb (map payment_id ps)
unfolding archive_loop delete_all
archive_loop-deletes B json clock i [] pb ab r done = ground arith
archive_loop-deletes B json clock i (p ∷ ps) pb ab r done =
    let p' = archived_at (clock i) p in
    elim (result_cases (put B ab (payment_id p') (json.marshal p'))) [
      | inl (ab', stored) ↦
          archive_loop-deletes B json clock (suc i) ps (B.delete pb (payment_id p)) ab' r
            (ground arith)
      | inr (inl (e, failed)) ↦ absurd (ground arith)
      | inr (inr failed) ↦ absurd (ground arith)
    ]

module _ {B : Bolt} (json : Json Payment) (j : Bytes) where
  find-archive_payments :
      (clock : ℕ → ℕ) (bundle : PaymentBundle) (d : Db B)
      → (archive_payments json clock bundle d).0 ≡ ok tt
      → find payment_bkt j (archive_payments json clock bundle d).1
        ≡ (if member j (map payment_id bundle.payments) then none else find payment_bkt j d)
  unfolding archive_payments archive_payments_tx update fetch_bucket
  find-archive_payments clock bundle none done = absurd (ground arith)
  find-archive_payments clock bundle (some p) done =
      elim (result_cases (fetch_bucket payment_bkt (some p))) [
        | inl (pb, found) ↦ elim (result_cases (fetch_bucket payment_archive_bkt (some p))) [
          | inl (ab, archive) ↦
              elim (result_cases (archive_loop B json clock 0 bundle.payments pb ab)) [
                | inl (r, moved) ↦ ground (
                  arith,
                  archive_loop-deletes B json clock 0 bundle.payments pb ab r moved,
                  lookup-delete_all B pb (map payment_id bundle.payments) j,
                )
                | inr (inl (e, failed)) ↦ absurd (ground arith)
                | inr (inr failed) ↦ absurd (ground arith)
              ]
          | inr (inl (e, failed)) ↦ absurd (ground arith)
          | inr (inr failed) ↦ absurd (ground arith)
        ]
        | inr (inl (e, failed)) ↦ absurd (ground arith)
        | inr (inr failed) ↦ absurd (ground arith)
      ]

  find-archive_bundles :
      (clock : ℕ → ℕ → ℕ) (i height : ℕ) (txid : Bytes) (bs : List PaymentBundle) (d : Db B)
      → (archive_bundles json clock i height txid bs d).0 ≡ ok tt
      → find payment_bkt j (archive_bundles json clock i height txid bs d).1
        ≡ (if member j (ids_of bs) then none else find payment_bkt j d)
  unfolding archive_bundles update_as_paid member
  find-archive_bundles clock i height txid [] d done = ground arith
  find-archive_bundles clock i height txid (b ∷ bs) d done =
      let d' = (archive_payments json (clock i) (update_as_paid height txid b) d).1 in
      elim (result_cases (archive_payments json (clock i) (update_as_paid height txid b) d).0) [
        | inl (_, moved) ↦ ground (
          arith,
          find-archive_payments (clock i) (update_as_paid height txid b) d moved,
          ids_as_paid height txid b.payments,
          find-archive_bundles clock (suc i) height txid bs d' (ground arith),
          member-append j (map payment_id b.payments) (ids_of bs),
        )
        | inr (inl (e, failed)) ↦ absurd (ground arith)
        | inr (inr failed) ↦ absurd (ground arith)
      ]

find-stored :
    {B : Bolt} (j : Bytes) (pm pm' : PaymentMgr) (d : Db B)
    → find payment_bkt j
        (update
          (Db.◌>>◌
            (persist_tx_fee_reserve pm)
            (Db.◌>>◌ (persist_last_payment_height pm') (persist_last_payment_paid_on pm')))
          d).1
      ≡ find payment_bkt j d
unfolding persist_tx_fee_reserve persist_last_payment_height persist_last_payment_paid_on
    put_pool_value put update pool_bucket
find-stored j pm pm' none = refl
find-stored j pm pm' (some p) = ground arith

module _ {B : Bolt} {F : Floats} (cfg : PaymentMgrConfig F) (payment_json : Json Payment)
    (account_json : Json Account) (out : Outside) (height : ℕ) where
  find-persist_payment :
      (j : Bytes) (s : State B)
      → find payment_bkt j (persist_payment cfg payment_json account_json out height s).1.db
        ≡ find payment_bkt j s.db
  unfolding persist_payment
  find-persist_payment j s =
      ground (arith, find-stored j s.mgr (record s.mgr { height = height }) s.db)

  height-persist_payment :
      (s : State B)
      → (persist_payment cfg payment_json account_json out height s).0 ≡ ok tt
      → (persist_payment cfg payment_json account_json out height s).1.mgr.height ≡ height
  unfolding persist_payment
  height-persist_payment s done = ground arith

  pay_bundles-pays :
      (j : Bytes) (s : State B) (bundles : List PaymentBundle)
      → (pay_bundles cfg payment_json account_json out height bundles s).0 ≡ ok tt
      → let s' = (pay_bundles cfg payment_json account_json out height bundles s).1 in
        (s'.mgr.height ≡ height)
        × (find payment_bkt j s'.db
            ≡ (if member j (ids_of bundles) then none else find payment_bkt j s.db))
  unfolding pay_bundles
  pay_bundles-pays j s bundles done =
      elim (result_cases (pick_address out.random cfg.pool_fee_addrs)) [
        | inl (addr, picked) ↦
            elim (result_cases (generate_payment_details account_json s.db addr bundles)) [
              | inl (details, made) ↦
                  let applied = apply_reserve cfg.max_tx_fee_reserve addr details.0 s.mgr in
                  elim (result_cases (all_addresses out.net applied.0)) [
                    | inl (_, parsed) ↦
                        elim (result_cases (out.publish_transaction applied.0 details.1)) [
                          | inl (txid, published) ↦
                              let archived =
                                archive_bundles payment_json out.clock 0 height txid bundles s.db in
                              let s3 = record s { mgr = applied.1; db = archived.1 } in
                              elim (result_cases archived.0) [
                                | inl (_, moved) ↦ (
                                  ground (arith, height-persist_payment s3),
                                  ground (
                                    arith,
                                    find-persist_payment j s3,
                                    find-archive_bundles payment_json j out.clock 0 height txid
                                        bundles s.db moved,
                                  ),
                                )
                                | inr (inl (e, failed)) ↦ absurd (ground arith)
                                | inr (inr failed) ↦ absurd (ground arith)
                              ]
                          | inr (inl (e, failed)) ↦ absurd (ground arith)
                          | inr (inr failed) ↦ absurd (ground arith)
                        ]
                    | inr (inl (e, failed)) ↦ absurd (ground arith)
                    | inr (inr failed) ↦ absurd (ground arith)
                  ]
              | inr (inl (e, failed)) ↦ absurd (ground arith)
              | inr (inr failed) ↦ absurd (ground arith)
            ]
        | inr (inl (e, failed)) ↦ absurd (ground arith)
        | inr (inr failed) ↦ absurd (ground arith)
      ]

  -- Where payDividends does not wait and some bundles are eligible, its success means that the height
  -- is noted as that of the last payment, and that of the pending payments those of the bundles are
  -- gone, and no other.
  pub pay_dividends_pays :
      (s : State B) (b : PaymentBundle) (bs : List PaymentBundle)
      → is_waiting height s.mgr ≡ false
      → fetch_eligible_payment_bundles cfg.min_payment out.is_dust_amount s.mgr.payment_reqs
          payment_json height s.db
        ≡ ok (b ∷ bs)
      → (pay_dividends cfg payment_json account_json out height s).0 ≡ ok tt
      → let s' = (pay_dividends cfg payment_json account_json out height s).1 in
        (s'.mgr.height ≡ height)
        × ((j : Bytes)
            → find payment_bkt j s'.db
              ≡ (if member j (ids_of (b ∷ bs)) then none else find payment_bkt j s.db))
  unfolding pay_dividends
  pay_dividends_pays s b bs moves eligible done =
      let s1 = record s { mgr = record s.mgr { payment_reqs = [] } } in
      (
        ground (arith, pay_bundles-pays [] s1 (b ∷ bs) (ground arith)),
        λ j. ground (arith, pay_bundles-pays j s1 (b ∷ bs) (ground arith)),
      )
