-- ===== src/Tests/Codecs.antt =====
-- Encodings of the records that stand for encoding/json: a sequence of fields, each closed by a zero,
-- with every number raised by one.
use eacrpool.Prelude.{
  ℕ, zero, suc, ◌≡◌, refl, ap, ◌∙◌, Bool, true, false, Option, none, some, List, [], ◌∷◌,
}
use eacrpool.Bytes.{Bytes}
use eacrpool.Json.{Json}
use eacrpool.Account.{Account}
use eacrpool.Job.{Job}
use eacrpool.Work.{AcceptedWork}
use eacrpool.Payment.{Payment}
use eacrpool.Share.{Share}

unfoldable pub close : Bytes → Bytes → Bytes
close [] rest = 0 ∷ rest
close (x ∷ xs) rest = suc x ∷ close xs rest

unfoldable pub join : List Bytes → Bytes
unfolding close
join [] = []
join (c ∷ cs) = close c (join cs)

abbrev pub push : ℕ → List Bytes → List Bytes
push x [] = (x ∷ []) ∷ []
push x (c ∷ cs) = (x ∷ c) ∷ cs

unfoldable pub split : Bytes → List Bytes
split [] = []
split (zero ∷ bs) = [] ∷ split bs
split (suc x ∷ bs) = push x (split bs)

split-close : (c rest : Bytes) → split (close c rest) ≡ c ∷ split rest
unfolding split close
split-close [] rest = refl
split-close (x ∷ c) rest = ap (push x) (split-close c rest)

pub split-join : (cs : List Bytes) → split (join cs) ≡ cs
unfolding split join
split-join [] = refl
split-join (c ∷ cs) = split-close c (join cs) ∙ ap (◌∷◌ c) (split-join cs)

module _ {A : Type 0} (fields : A → List Bytes) (record_of : List Bytes → Option A)
    (same : (a : A) → record_of (fields a) ≡ some a) where
  abbrev pub json_of : Json A
  json_of = record {
    marshal = λ a. join (fields a);
    unmarshal = λ bs. record_of (split bs);
    unmarshal-marshal = λ a. ap record_of (split-join (fields a)) ∙ same a;
  }

abbrev pub account_of : List Bytes → Option Account
account_of (u ∷ a ∷ (c ∷ []) ∷ []) = some (record { uuid = u; address = a; created_on = c })
account_of _ = none

abbrev pub account_json : Json Account
account_json = json_of (λ a. a.uuid ∷ a.address ∷ (a.created_on ∷ []) ∷ []) account_of (λ a. refl)

abbrev pub job_of : List Bytes → Option Job
job_of (u ∷ (h ∷ []) ∷ b ∷ []) = some (record { uuid = u; height = h; header = b })
job_of _ = none

abbrev pub job_json : Json Job
job_json = json_of (λ j. j.uuid ∷ (j.height ∷ []) ∷ j.header ∷ []) job_of (λ j. refl)

abbrev pub share_of : List Bytes → Option Share
share_of (a ∷ (n ∷ d ∷ c ∷ []) ∷ []) =
    some (record { account = a; weight = record { num = n; den = d }; created_on = c })
share_of _ = none

abbrev pub share_json : Json Share
share_json =
    json_of (λ s. s.account ∷ (s.weight.num ∷ s.weight.den ∷ s.created_on ∷ []) ∷ []) share_of
      (λ s. refl)

abbrev pub payment_of : List Bytes → Option Payment
payment_of (a ∷ (m ∷ h ∷ v ∷ c ∷ p ∷ []) ∷ t ∷ []) = some (record {
  account = a;
  estimated_maturity = m;
  height = h;
  amount = v;
  created_on = c;
  paid_on_height = p;
  transaction_id = t;
})
payment_of _ = none

abbrev pub payment_fields : Payment → List Bytes
payment_fields p =
    p.account
    ∷ (p.estimated_maturity ∷ p.height ∷ p.amount ∷ p.created_on ∷ p.paid_on_height ∷ [])
    ∷ p.transaction_id
    ∷ []

abbrev pub payment_json : Json Payment
payment_json = json_of payment_fields payment_of (λ p. refl)

abbrev pub flag : Bool → Bytes
flag true = 1 ∷ []
flag false = []

abbrev pub of_flag : Bytes → Bool
of_flag [] = false
of_flag _ = true

abbrev pub work_of : List Bytes → Option AcceptedWork
work_of (u ∷ b ∷ p ∷ m ∷ r ∷ (h ∷ c ∷ []) ∷ f ∷ []) = some (record {
  uuid = u;
  block_hash = b;
  prev_hash = p;
  height = h;
  mined_by = m;
  miner = r;
  created_on = c;
  confirmed = of_flag f;
})
work_of _ = none

pub work_of_lem :
    (u b p m r : Bytes) (h c : ℕ) (f : Bool)
    → work_of (u ∷ b ∷ p ∷ m ∷ r ∷ (h ∷ c ∷ []) ∷ flag f ∷ [])
      ≡ some (record {
        uuid = u;
        block_hash = b;
        prev_hash = p;
        height = h;
        mined_by = m;
        miner = r;
        created_on = c;
        confirmed = f;
      })
work_of_lem u b p m r h c true = refl
work_of_lem u b p m r h c false = refl

abbrev pub work_json : Json AcceptedWork
work_json =
    json_of
      (λ w.
        w.uuid
        ∷ w.block_hash
        ∷ w.prev_hash
        ∷ w.mined_by
        ∷ w.miner
        ∷ (w.height ∷ w.created_on ∷ [])
        ∷ flag w.confirmed
        ∷ [])
      work_of
      (λ w.
        work_of_lem w.uuid w.block_hash w.prev_hash w.mined_by w.miner w.height w.created_on
          w.confirmed)
