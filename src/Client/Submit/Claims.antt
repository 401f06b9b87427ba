-- ===== src/Client/Submit/Claims.antt =====
-- pool/client.go: the share of a submission, and the work of a block that the daemon accepts.
use eacrpool.Prelude.{
  ℕ, ◌<◌, ◌≤◌, ◌≡◌, refl, true, false, ltb, ◌&&◌, none, some, [], ◌∷◌, ◌++◌, arith, if◌then◌else◌,
}
use mathlib.Core.Path.{subst}
use eacrpool.Errors.{ok}
use eacrpool.Bytes.{Bytes, equal, equal_refl}
use eacrpool.Ids.{nano_to_big_endian_bytes}
use eacrpool.Bolt.{Bolt}
use eacrpool.Db.{BucketName, Db, share_bkt, work_bkt, same_name}
use eacrpool.Db.Records.{HasBucket, find, put_value-ok, find-put_value, put_value-HasBucket}
use eacrpool.Work.{AcceptedWork, new_accepted_work, create_work, fetch_accepted_work}
use eacrpool.Work.Updates.{Stores, Creates, work_branches}
use eacrpool.Share.{Share, new_share, create_share}
use eacrpool.ChainState.{BlockHeader}
use eacrpool.Difficulty.{above, of_int, name, share_weights}
use eacrpool.Message.{Request, response}
use eacrpool.Message.Responses.{submit_work_response}
use eacrpool.Client.{
  Chain, ClientConfig, Codecs, Times, Session, with_db, send, respond, request_id, run_or_reject,
  claim_weighted_share,
}
use eacrpool.Client.Submit.{
  solved_submission, hash_target, record_work, submit_block, submission_data, submit_solved,
  submit_below, claim_share, handle_solved, handle_submit_work_request,
}
use eacrpool.Client.Submit.Outcomes.{counted}

module _ {B : Bolt} {F : Type 0} (chain : Chain) (cfg : ClientConfig) (codecs : Codecs)
    (now : Times) (req : Request F) (s : Session B F) where
  -- the share of the client, whether it is authorized or not
  abbrev pub claimed_share : Share
  claimed_share = new_share now.nanoseconds s.client.account (share_weights cfg.miner)

  abbrev pub share_key : Bytes
  share_key = nano_to_big_endian_bytes now.nanoseconds

  abbrev pub share_db : Db B
  share_db = (create_share codecs.share_json claimed_share s.db).1

  -- What a submission needs to be worth a share in pool mode: it solves a header whose hash is not above
  -- the pool's target, and the database takes the share.
  pub record IsWorthShare (header : BlockHeader) (target hash : ℕ) : Type 0 where
    pub pool_mode : cfg.solo_pool ≡ false
    pub test_net : cfg.main_net ≡ false
    pub solved : solved_submission chain cfg codecs req s ≡ ok (header, target)
    pub hashed : hash_target chain cfg.difficulty_info header ≡ ok hash
    pub below : above (of_int hash) cfg.difficulty_info.target ≡ false
    pub has_shares : HasBucket share_bkt s.db
    pub fits : B.fits share_key (codecs.share_json.marshal claimed_share) ≡ true

  module _ (header : BlockHeader) (target hash : ℕ) (worth : IsWorthShare header target hash) where
    abbrev claimed : Session B F
    claimed = record (counted s) { db = share_db }

    share_created : (create_share codecs.share_json claimed_share s.db).0 ≡ ok tt
    unfolding create_share new_share
    share_created =
        put_value-ok share_bkt share_key (codecs.share_json.marshal claimed_share) s.db
          worth.has_shares worth.fits

    find-share_db :
        (m : BucketName) (j : Bytes)
        → find m j share_db ≡ (
            if same_name share_bkt m && equal share_key j
            then some (codecs.share_json.marshal claimed_share)
            else find m j s.db)
    unfolding create_share new_share
    find-share_db m j =
        find-put_value share_bkt m share_key (codecs.share_json.marshal claimed_share) j s.db
          worth.has_shares worth.fits

    handled :
        handle_submit_work_request chain cfg codecs now req true s
        ≡ submit_below chain cfg codecs now req header hash target claimed
    unfolding handle_submit_work_request handle_solved claim_share claim_weighted_share with_db
        run_or_reject
    handled = ground (
      arith, worth.pool_mode, worth.test_net, worth.solved, worth.hashed, worth.below,
      share_created,
    )

    -- Where the pool is in pool mode, on a test network, and an allowed submission with an ID solves a header whose
    -- hash is above the network's target but not above the pool's, the handler stores a share of the
    -- client's account and of its miner's weight, changes no other key of any bucket, and answers `true`.
    -- It does not ask whether the client was authorized.
    pub handle_submit_work_request_claims :
        (id : ℕ)
        → req.id ≡ some id
        → target < hash
        → let (r, s') = handle_submit_work_request chain cfg codecs now req true s in
          (r ≡ ok tt)
          × (s'.sent ≡ (s.sent ++ response (submit_work_response id true none) ∷ []))
          × ((m : BucketName) (j : Bytes)
              → find m j s'.db ≡ (
                  if same_name share_bkt m && equal share_key j
                  then some (codecs.share_json.marshal claimed_share)
                  else find m j s.db))
    unfolding submit_below respond request_id send
    handle_submit_work_request_claims id has_id high =
        rw (handled, not_within target hash high, has_id) (refl, refl, find-share_db)
      where
        not_within : (a b : ℕ) → a < b → ltb a b ≡ true
        not_within a b h = ground arith

    abbrev pub block_work : AcceptedWork
    block_work =
        new_accepted_work now.seconds header.block_hash header.prev_block header.height
          s.client.account (name cfg.miner)

    -- what makes the daemon accept the header's block as new
    pub record IsNewBlock (bytes : Bytes) : Type 0 where
      pub within : hash ≤ target
      pub serialized : chain.header_bytes header ≡ some bytes
      pub accepted : cfg.submit_work (submission_data bytes cfg.blake256_pad) ≡ ok true
      pub has_work : HasBucket work_bkt s.db
      pub is_new : find work_bkt block_work.uuid s.db ≡ none
      pub work_fits : B.fits block_work.uuid (codecs.work_json.marshal block_work) ≡ true

    module _ (bytes : Bytes) (block : IsNewBlock bytes) where
      absent : find work_bkt block_work.uuid share_db ≡ none
      absent = ground (arith, find-share_db work_bkt block_work.uuid, block.is_new)

      share_db-HasBucket : HasBucket work_bkt share_db
      unfolding create_share
      share_db-HasBucket = put_value-HasBucket share_bkt work_bkt _ _ s.db block.has_work

      work_stored :
          Stores codecs.work_json block_work share_db
            (create_work codecs.work_json block_work share_db)
      work_stored =
          subst
            (λ found.
              Creates codecs.work_json block_work share_db found
                (create_work codecs.work_json block_work share_db))
            absent
            (work_branches codecs.work_json block_work share_db share_db-HasBucket
              block.work_fits).0

      share_kept :
          find share_bkt share_key (create_work codecs.work_json block_work share_db).1
          ≡ some (codecs.share_json.marshal claimed_share)
      share_kept = ground (
        arith,
        work_stored.2 share_bkt share_key,
        find-share_db share_bkt share_key,
        equal_refl share_key,
      )

      -- Where moreover the hash is not above the network's target, and the daemon accepts a block that the
      -- database has no work of, the handler gives the daemon the block's data, stores the share, and
      -- stores the block as accepted work of the client's account, which can be fetched. It sends the
      -- client nothing.
      pub handle_submit_work_request_accepts :
          let (r, s') = handle_submit_work_request chain cfg codecs now req true s in
          (r ≡ ok tt)
          × (s'.sent ≡ s.sent)
          × (s'.submitted ≡ (s.submitted ++ submission_data bytes cfg.blake256_pad ∷ []))
          × (fetch_accepted_work codecs.work_json block_work.uuid s'.db ≡ ok block_work)
          × (find share_bkt share_key s'.db ≡ some (codecs.share_json.marshal claimed_share))
      unfolding submit_below submit_solved record_work submit_block run_or_reject with_db
      handle_submit_work_request_accepts =
          rw handled (
            ground (arith, block.within, block.serialized, block.accepted, work_stored, share_kept))
