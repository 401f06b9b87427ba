-- ===== src/Tests/Fixtures.antt =====
-- Databases that hold one bucket's pairs.
use eacrpool.Prelude.{some, [], ◌∷◌}
use eacrpool.Db.{
  BucketName, PoolBkt, account_bkt, share_bkt, job_bkt, work_bkt, payment_bkt, payment_archive_bkt,
}
use eacrpool.Tests.Store.{Pairs, store}

unfoldable pub filled : Pairs → store.Bucket
filled [] = store.empty
filled ((k, v) ∷ l) = store.store (filled l) k v

abbrev pub pool : (BucketName → Pairs) → PoolBkt store
pool f = record { values = store.empty; nested = λ n. some (filled (f n)) }

-- the pairs of one bucket, with every other bucket empty
abbrev pub only_jobs : Pairs → BucketName → Pairs
only_jobs l job_bkt = l
only_jobs l _ = []

abbrev pub only_work : Pairs → BucketName → Pairs
only_work l work_bkt = l
only_work l _ = []

abbrev pub only_payments : Pairs → BucketName → Pairs
only_payments l payment_bkt = l
only_payments l _ = []

abbrev pub only_shares : Pairs → BucketName → Pairs
only_shares l share_bkt = l
only_shares l _ = []

abbrev pub only_accounts : Pairs → BucketName → Pairs
only_accounts l account_bkt = l
only_accounts l _ = []

-- pending payments and the archive
abbrev pub all_payments : Pairs → Pairs → BucketName → Pairs
all_payments l m payment_bkt = l
all_payments l m payment_archive_bkt = m
all_payments l m _ = []
