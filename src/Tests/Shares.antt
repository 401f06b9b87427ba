-- ===== src/Tests/Shares.antt =====
-- A bucket of three shares of two accounts.
use eacrpool.Prelude.{ℕ, ◌≡◌, refl, none, some, [], ◌∷◌, arith}
use eacrpool.Errors.{ok}
use eacrpool.Bytes.{Bytes, put_uint32_be, put_uint64_be, equal, less}
use eacrpool.Rat.{Rat, Same, IsPositive, one_rat, sum}
use eacrpool.Ids.{nano_to_big_endian_bytes}
use eacrpool.Db.{Db, fetch_bucket}
use eacrpool.Share.{
  Share, Tally, new_share, share_percentages, pps_eligible_shares, pplns_eligible_shares,
}
use eacrpool.Share.Eligible.{eligible_shares}
use eacrpool.Share.Percentages.{
  part_of, parts, divided, total_weight, account_weight, share_percentages_whole,
}
use eacrpool.Tests.Store.{Pairs, store, insert}
use eacrpool.Tests.Codecs.{share_json, split, join, close}
use eacrpool.Tests.Fixtures.{pool, filled, only_shares}

abbrev x_id : Bytes
x_id = 120 ∷ []

abbrev weight_of : ℕ → Rat
weight_of n = record { num = n; den = 2 }

abbrev share_1 : Share
share_1 = new_share 1 x_id (weight_of 3)

abbrev share_2 : Share
share_2 = new_share 2 (121 ∷ []) (weight_of 2)

abbrev share_3 : Share
share_3 = new_share 3 x_id (weight_of 5)

abbrev key : ℕ → Bytes
key n = nano_to_big_endian_bytes n

abbrev shares : Pairs
shares =
    (key 1, share_json.marshal share_1)
    ∷ (key 2, share_json.marshal share_2)
    ∷ (key 3, share_json.marshal share_3)
    ∷ []

abbrev shares_db : Db store
shares_db = some (pool (only_shares shares))

eligible_shares_example :
    (pps_eligible_shares share_json (some (key 2)) (key 3) shares_db ≡ ok (share_2 ∷ share_3 ∷ []))
    × (pps_eligible_shares share_json none (key 3) shares_db
        ≡ ok (share_1 ∷ share_2 ∷ share_3 ∷ []))
    × (pplns_eligible_shares share_json (key 2) shares_db ≡ ok (share_3 ∷ []))
unfolding new_share nano_to_big_endian_bytes put_uint32_be put_uint64_be equal less filled insert
    fetch_bucket split join close
eligible_shares_example =
    eligible_shares share_json shares_db
      ((key 1, share_1) ∷ (key 2, share_2) ∷ (key 3, share_3) ∷ []) (key 2) (key 3) refl
      (refl, refl, (refl, refl, (refl, refl, tt)))

share_percentages_whole_example :
    (t : Tally) × (share_percentages (share_1 ∷ share_2 ∷ share_3 ∷ [])
      ≡ ok (divided (total_weight (share_1 ∷ share_2 ∷ share_3 ∷ [])) t))
    × ((a : Bytes) → part_of a t ≡ account_weight a (share_1 ∷ share_2 ∷ share_3 ∷ []))
    × Same (sum (parts (divided (total_weight (share_1 ∷ share_2 ∷ share_3 ∷ [])) t))) one_rat
    × IsPositive (total_weight (share_1 ∷ share_2 ∷ share_3 ∷ []))
unfolding new_share
share_percentages_whole_example = share_percentages_whole share_1 (share_2 ∷ share_3 ∷ []) (
  record { num_pos = omega arith; den_pos = omega arith },
  (
    record { num_pos = omega arith; den_pos = omega arith },
    (record { num_pos = omega arith; den_pos = omega arith }, tt),
  ),
)
