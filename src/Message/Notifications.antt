-- ===== src/Message/Notifications.antt =====
-- pool/message.go: SetDifficultyNotification and WorkNotification, and their parsers.
use eacrpool.Prelude.{ℕ, Bool, none, [], ◌∷◌}
use eacrpool.Errors.{Result, ok, panic, ◌>>=◌, ◌>>◌}
use eacrpool.Bytes.{Bytes}
use eacrpool.Rat.{Rat}
use eacrpool.Message.{
  Value, Wire, bool, number, text, array, texts, uints, empty, item, Request, set_difficulty,
  notify, as_bool, as_array, at_index, check_method,
}
use eacrpool.Message.Requests.{text_at}

module _ {F : Type 0} where
  -- `whole` is the conversion of a rational to float64, by math/big, and from there to uint64.
  unfoldable pub set_difficulty_notification : (Rat → ℕ) → Rat → Request F
  set_difficulty_notification whole difficulty = record {
    id = none;
    method = set_difficulty;
    params = uints (whole difficulty ∷ []);
  }

  -- `v.(float64)` with no second result, which panics
  unfoldable pub must_number : Value F → Result F
  must_number (number x) = ok x
  must_number _ = panic

  unfoldable pub work_notification :
      Bytes → Bytes → Bytes → Bytes → Bytes → Bytes → Bytes → Bool → Request F
  work_notification job_id prev_block gen_tx1 gen_tx2 block_version n_bits n_time clean_job =
      record {
        id = none;
        method = notify;
        params = array (
            item (text job_id) (
              item (text prev_block) (
                item (text gen_tx1) (
                  item (text gen_tx2) (
                    item (texts []) (
                      item (text block_version) (
                        item (text n_bits)
                          (item (text n_time) (item (bool clean_job) empty)))))))));
      }

  -- The job's id, the previous block, the two parts of the generation transaction, the version, the
  -- bits, the time and whether older jobs are dropped. The branches, at index 4, are not read.
  unfoldable pub parse_work_notification :
      Request F → Result (Bytes × Bytes × Bytes × Bytes × Bytes × Bytes × Bytes × Bool)
  unfolding text_at
  parse_work_notification req = do
    check_method notify req
    params ← as_array req.params
    job_id ← text_at 0 params
    prev_block ← text_at 1 params
    gen_tx1 ← text_at 2 params
    gen_tx2 ← text_at 3 params
    block_version ← text_at 5 params
    n_bits ← text_at 6 params
    n_time ← text_at 7 params
    v ← at_index 8 params
    clean_job ← as_bool v
    ok (job_id, prev_block, gen_tx1, gen_tx2, block_version, n_bits, n_time, clean_job)

module _ (W : Wire) where
  unfoldable pub parse_set_difficulty_notification : Request W.Float → Result ℕ
  parse_set_difficulty_notification req = do
    check_method set_difficulty req
    params ← as_array req.params
    v ← at_index 0 params
    x ← must_number v
    ok (W.to_uint x)
