-- ===== src/ChainState/Disconnected.antt =====
-- pool/chainstate.go, the handler of disconnected blocks: the work and the pending payments.
use eacrpool.Prelude.{
  ◌≡◌, refl, ◌∙◌, true, false, ◌&&◌, none, List, [], ◌∷◌, map, filter, arith, ◌==◌, if◌then◌else◌,
}
use eacrpool.Errors.{ok}
use eacrpool.Bytes.{Bytes, equal}
use eacrpool.Bolt.{Bolt}
use eacrpool.Json.{Json}
use eacrpool.Db.{BucketName, work_bkt, payment_bkt, same_name, fetch_bucket}
use eacrpool.Db.Buckets.{delete_entry}
use eacrpool.Db.Records.{find, HasBucket}
use eacrpool.Db.Deletes.{
  fetch_bucket-delete_entry, delete_entry-ok, delete_entry-HasBucket, find-delete_entry,
  fetch_value-HasBucket,
}
use eacrpool.Db.Prune.{member}
use eacrpool.Work.{AcceptedWork, accepted_work_id, fetch_accepted_work, delete_work}
use eacrpool.Payment.{Payment, payment_id, delete_payment}
use eacrpool.Payment.Query.Filtered.{Holds, pending_payments}
use eacrpool.ChainState.{
  BlockHeader, ChainStateConfig, Handling, close_done, attempt, delete_loop, handle_disconnected,
}

module _ {B : Bolt} where
  -- The loop over payments whose bucket is there does not fail.
  delete_loop_lem :
      (ps : List Payment) (h : Handling B)
      → HasBucket payment_bkt h.books.db
      → let (r, h') = delete_loop ps h in
        (r ≡ ok tt)
        × (h'.closed ≡ h.closed)
        × (h'.cancelled ≡ h.cancelled)
        × ((m : BucketName) (j : Bytes)
            → find m j h'.books.db ≡ (
                if same_name payment_bkt m && member j (map payment_id ps)
                then none
                else find m j h.books.db))
  unfolding delete_loop delete_payment member
  delete_loop_lem [] h b = (refl, refl, refl, λ m j. ground arith)
  delete_loop_lem (p ∷ ps) h b =
      let deleted = delete_entry payment_bkt (payment_id p) h.books.db in
      let h1 = record h { books = record h.books { db = deleted.1 } } in
      let rest =
        delete_loop_lem ps h1
          (delete_entry-HasBucket payment_bkt (payment_id p) payment_bkt h.books.db b) in
      rw (delete_loop, delete_entry-ok payment_bkt (payment_id p) h.books.db b)
        (
          rest.0,
          rest.1,
          rest.2,
          λ m j.
              ground
                (arith, rest.3 m j, find-delete_entry payment_bkt (payment_id p) m j h.books.db b),
        )

  -- Where a block's work is stored, its channel open, and the payment bucket holds the payments `ps`,
  -- the handler of the disconnected block in pool mode succeeds: it closes the channel once and cancels
  -- nothing, it deletes the key of the work and the ids of the payments of the block's height that are
  -- not paid, and every other key of any bucket keeps its value.
  pub handle_disconnected_exact :
      (cfg : ChainStateConfig B) (work_json : Json AcceptedWork) (payment_json : Json Payment)
      (bytes : Bytes) (header : BlockHeader) (work : AcceptedWork) (h : Handling B) {b : B.Bucket}
      (ps : List Payment)
      → cfg.from_bytes bytes ≡ ok header
      → cfg.solo_pool ≡ false
      → fetch_accepted_work work_json (accepted_work_id header.block_hash header.height) h.books.db
        ≡ ok work
      → fetch_bucket payment_bkt h.books.db ≡ ok b
      → Holds payment_json (B.entries b) ps
      → h.closed ≡ false
      → let (r, h') = handle_disconnected cfg work_json payment_json bytes h in
        (r ≡ ok tt)
        × (h'.closed ≡ true)
        × (h'.cancelled ≡ h.cancelled)
        × ((m : BucketName) (j : Bytes)
            → find m j h'.books.db ≡ (
                if same_name work_bkt m && equal work.uuid j
                then none
                else if same_name payment_bkt m
                    && member j (
                        map payment_id
                          (filter (λ p. p.paid_on_height == 0 && p.height == header.height) ps))
                then none
                else find m j h.books.db))
  unfolding handle_disconnected delete_work fetch_accepted_work attempt close_done
  handle_disconnected_exact cfg work_json payment_json bytes header work h {b} ps parsed pool
        fetched found all open' =
      let b_work = fetch_value-HasBucket work_json work_bkt _ h.books.db fetched in
      let db1 = (delete_entry work_bkt work.uuid h.books.db).1 in
      let h1 = record h { books = record h.books { db = db1 } } in
      let found1 =
        fetch_bucket-delete_entry work_bkt work.uuid payment_bkt h.books.db refl ∙ found in
      let (_, _, pending) = pending_payments payment_json header.height db1 ps found1 all in
      let pmts = filter (λ p. p.paid_on_height == 0 && p.height == header.height) ps in
      let (done, same_closed, same_cancelled, finds) = delete_loop_lem pmts h1 (b, found1) in
      let deleted = delete_entry-ok work_bkt work.uuid h.books.db b_work in
      (
        ground arith,
        ground arith,
        ground arith,
        λ m j.
            ground (arith, finds m j, find-delete_entry work_bkt work.uuid m j h.books.db b_work),
      )
