-- ===== src/Tests/Works.antt =====
-- A bucket of two pieces of work, one of them confirmed.
use eacrpool.Prelude.{◌≡◌, refl, true, none, some, [], ◌∷◌, arith, if◌then◌else◌}
use eacrpool.Errors.{ok}
use eacrpool.Bytes.{Bytes, hex_encode, hex_digit, put_uint32_be, equal, less}
use eacrpool.Bolt.{lookup}
use eacrpool.Ids.{HasHeight, height_to_big_endian_bytes}
use eacrpool.Db.{BucketName, Db, work_bkt, fetch_bucket, same_name}
use eacrpool.Db.Records.{find}
use eacrpool.Work.{
  AcceptedWork, accepted_work_id, new_accepted_work, prune_accepted_work, list_mined_work,
  list_mined_work_by_account,
}
use eacrpool.Work.Pruning.{prune_accepted_work_exact}
use eacrpool.Work.Listing.{list_mined_work_recent}
use eacrpool.Tests.Store.{Pairs, store, insert}
use eacrpool.Tests.Codecs.{work_json, split, join, close}
use eacrpool.Tests.Fixtures.{pool, filled, only_work}

abbrev stale : AcceptedWork
stale = new_accepted_work 1 (97 ∷ []) (96 ∷ []) 5 (109 ∷ []) (119 ∷ [])

abbrev mined : AcceptedWork
mined = record (new_accepted_work 2 (98 ∷ []) (97 ∷ []) 9 (109 ∷ []) (119 ∷ [])) {
  confirmed = true;
}

abbrev works : Pairs
works = (stale.uuid, work_json.marshal stale) ∷ (mined.uuid, work_json.marshal mined) ∷ []

abbrev works_db : Db store
works_db = some (pool (only_work works))

abbrev no_work_db : Db store
no_work_db = some (pool (only_work []))

stale-HasHeight : HasHeight 5 stale.uuid
unfolding new_accepted_work accepted_work_id height_to_big_endian_bytes
stale-HasHeight = record { bounded = omega arith; rest = 97 ∷ []; shape = refl }

mined-HasHeight : HasHeight 9 mined.uuid
unfolding new_accepted_work accepted_work_id height_to_big_endian_bytes
mined-HasHeight = record { bounded = omega arith; rest = 98 ∷ []; shape = refl }

prune_accepted_work_exact_example :
    let (r, d) = prune_accepted_work work_json 9 works_db in
    (r ≡ ok tt)
    × (find work_bkt stale.uuid d ≡ none)
    × ((m : BucketName) (j : Bytes)
        → find m j d ≡ (if same_name work_bkt m then find work_bkt j d else find m j works_db))
unfolding new_accepted_work accepted_work_id height_to_big_endian_bytes hex_encode hex_digit
    put_uint32_be equal less filled insert fetch_bucket lookup split join close
prune_accepted_work_exact_example =
    prune_accepted_work_exact work_json 9 works_db 5 stale.uuid refl
      (
        (5, stale-HasHeight, (stale, work_json.unmarshal-marshal stale)),
        ((9, mined-HasHeight, (mined, work_json.unmarshal-marshal mined)), tt),
      )
      stale-HasHeight

list_mined_work_recent_example :
    (list_mined_work work_json 1 works_db ≡ ok (mined ∷ []))
    × (list_mined_work_by_account work_json (110 ∷ []) 1 works_db ≡ ok [])
unfolding new_accepted_work accepted_work_id height_to_big_endian_bytes hex_encode hex_digit
    put_uint32_be equal less filled insert fetch_bucket lookup split join close
list_mined_work_recent_example =
    list_mined_work_recent work_json 1 works_db (mined ∷ stale ∷ []) (110 ∷ []) refl refl
