-- ===== src/Tests/Wire.antt =====
-- An encoding of messages that stands for encoding/json: every value has a tag, an array's items are
-- marked, and the fuel of the decoder comes first.
use eacrpool.Prelude.{
  ℕ, zero, suc, ◌+◌, ◌≤◌, ◌≡◌, refl, Bool, true, false, Option, none, some, List, [], ◌∷◌, arith,
  ◌&&◌, Option-cases, inl, inr,
}
use eacrpool.Bytes.{Bytes}
use eacrpool.Message.{
  Value, Values, null, object, bool, number, text, array, uint, texts, text_lists, uints, empty,
  item, Wire, Request, Response, StratumError, decoded_value, decoded_items, decoded_texts,
  decoded_text_lists, decoded_uints, received, received_response, received_error,
}
use eacrpool.Message.Identify.{Encoding, IsEncoding}
use eacrpool.Message.Parsing.{IsWire}

abbrev pub wire : Wire
wire = record { Float = ℕ; of_uint = λ n. n; to_uint = λ n. n; valid = λ s. s }

abbrev V : Type 0
V = Value ℕ

abbrev Vs : Type 0
Vs = Values ℕ

-- a text, each character raised by one, and a zero after it
unfoldable pub put_text : Bytes → Bytes → Bytes
put_text [] rest = 0 ∷ rest
put_text (c ∷ s) rest = suc c ∷ put_text s rest

unfoldable pub get_text : Bytes → Option (Bytes × Bytes)
get_text [] = none
get_text (zero ∷ rest) = some ([], rest)
get_text (suc c ∷ more) = elim (get_text more) [ none ↦ none | some (s, rest) ↦ some (c ∷ s, rest) ]

get_text-put_text : (s rest : Bytes) → get_text (put_text s rest) ≡ some (s, rest)
unfolding get_text put_text
get_text-put_text [] rest = refl
get_text-put_text (c ∷ s) rest = ground (arith, get_text-put_text s rest)

unfoldable pub put_bool : Bool → ℕ
put_bool true = 1
put_bool false = 0

unfoldable pub get_bool : ℕ → Bool
get_bool zero = false
get_bool (suc n) = true

get_bool-put_bool : (b : Bool) → get_bool (put_bool b) ≡ b
unfolding get_bool put_bool
get_bool-put_bool true = refl
get_bool-put_bool false = refl

-- a decoded value
unfoldable mutual
  pub put_value : V → Bytes → Bytes
  put_value null rest = 0 ∷ rest
  put_value object rest = 1 ∷ rest
  put_value (bool b) rest = 2 ∷ put_bool b ∷ rest
  put_value (number x) rest = 3 ∷ x ∷ rest
  put_value (text s) rest = 4 ∷ put_text s rest
  put_value (array vs) rest = 5 ∷ put_items vs rest
  put_value _ rest = rest

  pub put_items : Vs → Bytes → Bytes
  put_items empty rest = 0 ∷ rest
  put_items (item v vs) rest = 1 ∷ put_value v (put_items vs rest)

unfoldable mutual
  pub get_value : ℕ → Bytes → Option (V × Bytes)
  get_value (suc f) (zero ∷ rest) = some (null, rest)
  get_value (suc f) (suc zero ∷ rest) = some (object, rest)
  get_value (suc f) (suc (suc zero) ∷ b ∷ rest) = some (bool (get_bool b), rest)
  get_value (suc f) (suc (suc (suc zero)) ∷ x ∷ rest) = some (number x, rest)
  get_value (suc f) (suc (suc (suc (suc zero))) ∷ more) = elim (get_text more) [
    | none ↦ none
    | some (s, rest) ↦ some (text s, rest)
  ]
  get_value (suc f) (suc (suc (suc (suc (suc zero)))) ∷ more) = elim (get_items f more) [
    | none ↦ none
    | some (vs, rest) ↦ some (array vs, rest)
  ]
  get_value _ _ = none

  pub get_items : ℕ → Bytes → Option (Vs × Bytes)
  get_items (suc f) (zero ∷ rest) = some (empty, rest)
  get_items (suc f) (suc zero ∷ more) = elim (get_value f more) [
    | none ↦ none
    | some (v, more') ↦ elim (get_items f more') [
      | none ↦ none
      | some (vs, rest) ↦ some (item v vs, rest)
    ]
  ]
  get_items _ _ = none

unfoldable mutual
  pub size : V → ℕ
  size (array vs) = suc (size_items vs)
  size _ = 1

  pub size_items : Vs → ℕ
  size_items empty = 1
  size_items (item v vs) = suc (size v + size_items vs)

unfoldable mutual
  is_plain : V → Bool
  is_plain (array vs) = are_plain vs
  is_plain (uint n) = false
  is_plain (texts l) = false
  is_plain (text_lists l) = false
  is_plain (uints l) = false
  is_plain _ = true

  are_plain : Vs → Bool
  are_plain empty = true
  are_plain (item v vs) = is_plain v && are_plain vs

-- With enough fuel, what was put is got, and the rest is left.
abbrev Reads : V → Type 0
Reads v =
    is_plain v ≡ true
    → (rest : Bytes) (f : ℕ) → size v ≤ f
    → get_value f (put_value v rest) ≡ some (v, rest)

abbrev ReadsItems : Vs → Type 0
ReadsItems vs =
    are_plain vs ≡ true
    → (rest : Bytes) (f : ℕ) → size_items vs ≤ f
    → get_items f (put_items vs rest) ≡ some (vs, rest)

spend : {n : ℕ} (P : ℕ → Type 0) → ((f : ℕ) → n ≤ f → P (suc f)) → (f : ℕ) → suc n ≤ f → P f
spend P k zero h = absurd (omega arith)
spend P k (suc f) h = k f (omega arith)

get_value-put_value : (v : V) → Reads v
unfolding get_value put_value is_plain size
get_value-put_value v = elim v as Reads ReadsItems [
  | array (vs → ih) ↦ λ plain rest. spend _ λ f h. rw (ih plain rest f h) refl
  | empty ↦ λ plain rest. spend _ λ f h. refl
  | item (w → ih) (vs → ihs) ↦ λ plain rest. spend _ λ f h.
      rw
        (
          ih (both (is_plain w) (are_plain vs) plain).0 (put_items vs rest) f (omega arith),
          ihs (both (is_plain w) (are_plain vs) plain).1 rest f (omega arith),
        )
        refl
  | text t ↦ λ plain rest. spend _ λ f h. rw (get_value, get_text-put_text t rest) refl
  | bool b ↦ λ plain rest. spend _ λ f h. rw (get_bool-put_bool b) refl
  | null ↦ λ plain rest. spend _ λ f h. refl
  | object ↦ λ plain rest. spend _ λ f h. refl
  | number x ↦ λ plain rest. spend _ λ f h. refl
  | _ ↦ λ plain. absurd (ground (arith, plain))
]
  where
    both : (a b : Bool) → (a && b) ≡ true → (a ≡ true) × (b ≡ true)
    both a b h = ground arith

decoded_texts-plain : (l : List Bytes) → are_plain (decoded_texts wire l) ≡ true
unfolding is_plain decoded_texts
decoded_texts-plain [] = refl
decoded_texts-plain (t ∷ l) = decoded_texts-plain l

decoded_text_lists-plain : (l : List (List Bytes)) → are_plain (decoded_text_lists wire l) ≡ true
unfolding is_plain decoded_text_lists
decoded_text_lists-plain [] = refl
decoded_text_lists-plain (t ∷ l) = ground (arith, decoded_texts-plain t, decoded_text_lists-plain l)

decoded_uints-plain : (l : List ℕ) → are_plain (decoded_uints wire l) ≡ true
unfolding is_plain decoded_uints
decoded_uints-plain [] = refl
decoded_uints-plain (n ∷ l) = decoded_uints-plain l

decoded_value-plain : (v : V) → is_plain (decoded_value wire v) ≡ true
unfolding is_plain decoded_value
decoded_value-plain v =
    elim v
      as (λ v. is_plain (decoded_value wire v) ≡ true) (λ vs.
        are_plain (decoded_items wire vs) ≡ true) [
          | array (vs → ih) ↦ ih
          | empty ↦ refl
          | item (w → ih) (vs → ihs) ↦ ground (arith, ih, ihs)
          | texts l ↦ decoded_texts-plain l
          | text_lists l ↦ decoded_text_lists-plain l
          | uints l ↦ decoded_uints-plain l
          | _ ↦ refl
        ]

-- a decoded value with the fuel that it needs
unfoldable pub put_fuelled : V → Bytes
put_fuelled v = size v ∷ put_value v []

unfoldable pub get_fuelled : Bytes → Option V
get_fuelled [] = none
get_fuelled (f ∷ more) = elim (get_value f more) [ none ↦ none | some (v, rest) ↦ some v ]

get_fuelled-put_fuelled :
    (v : V) → get_fuelled (put_fuelled (decoded_value wire v)) ≡ some (decoded_value wire v)
unfolding get_fuelled put_fuelled
get_fuelled-put_fuelled v =
    rw
      (
        get_fuelled,
        get_value-put_value (decoded_value wire v) (decoded_value-plain v) []
            (size (decoded_value wire v)) (omega arith),
      )
      refl

unfoldable pub put_id : Option ℕ → ℕ
put_id none = 0
put_id (some n) = suc n

unfoldable pub get_id : ℕ → Option ℕ
get_id zero = none
get_id (suc n) = some n

get_id-put_id : (id : Option ℕ) → get_id (put_id id) ≡ id
unfolding get_id put_id
get_id-put_id none = refl
get_id-put_id (some n) = refl

unfoldable pub put_error : Option StratumError → Bytes → Bytes
put_error none rest = 0 ∷ rest
put_error (some e) rest = elim e.traceback [
  | none ↦ 1 ∷ e.code ∷ put_text e.message rest
  | some t ↦ 2 ∷ e.code ∷ put_text e.message (put_text t rest)
]

unfoldable pub get_error : Bytes → Option (Option StratumError × Bytes)
get_error (zero ∷ rest) = some (none, rest)
get_error (suc zero ∷ c ∷ more) = elim (get_text more) [
  | none ↦ none
  | some (m, rest) ↦ some (some (record { code = c; message = m; traceback = none }), rest)
]
get_error (suc (suc zero) ∷ c ∷ more) = elim (get_text more) [
  | none ↦ none
  | some (m, more') ↦ elim (get_text more') [
    | none ↦ none
    | some (t, rest) ↦ some (some (record { code = c; message = m; traceback = some t }), rest)
  ]
]
get_error _ = none

get_error-put_error :
    (e : Option StratumError) (rest : Bytes)
    → get_error (put_error e rest) ≡ some (received_error wire e, rest)
unfolding get_error put_error received_error
get_error-put_error none rest = refl
get_error-put_error (some e) rest = elim (Option-cases e.traceback) [
  | inl plain ↦ ground (arith, plain, get_text-put_text e.message rest)
  | inr (t, traced) ↦
      ground
        (arith, traced, get_text-put_text e.message (put_text t rest), get_text-put_text t rest)
]

-- a request begins with a zero, a response with a one
unfoldable pub marshal_request : Request ℕ → Bytes
marshal_request r = 0 ∷ put_id r.id ∷ put_text r.method (put_fuelled (decoded_value wire r.params))

unfoldable pub marshal_response : Response ℕ → Bytes
marshal_response r = 1 ∷ r.id ∷ put_error r.error (put_fuelled (decoded_value wire r.result))

unfoldable pub unmarshal_request : Bytes → Option (Request ℕ)
unmarshal_request (zero ∷ id ∷ more) = elim (get_text more) [
  | none ↦ none
  | some (m, rest) ↦ elim (get_fuelled rest) [
    | none ↦ none
    | some v ↦ some (record { id = get_id id; method = m; params = v })
  ]
]
unmarshal_request (suc zero ∷ id ∷ more) =
    some (record { id = some id; method = []; params = null })
unmarshal_request _ = none

unfoldable pub unmarshal_response : Bytes → Option (Response ℕ)
unmarshal_response (suc zero ∷ id ∷ more) = elim (get_error more) [
  | none ↦ none
  | some (e, rest) ↦ elim (get_fuelled rest) [
    | none ↦ none
    | some v ↦ some (record { id = id; error = e; result = v })
  ]
]
unmarshal_response _ = none

abbrev pub encoding : Encoding wire
encoding = record {
  marshal_request = marshal_request;
  marshal_response = marshal_response;
  unmarshal_request = unmarshal_request;
  unmarshal_response = unmarshal_response;
}

pub encoding-IsEncoding : IsEncoding encoding
unfolding marshal_request marshal_response unmarshal_request unmarshal_response received
    received_response
encoding-IsEncoding = record {
  reads_request = λ r. ground (
    arith,
    get_text-put_text r.method (put_fuelled (decoded_value wire r.params)),
    get_fuelled-put_fuelled r.params,
    get_id-put_id r.id,
  );
  reads_response = λ r. ground (
    arith,
    get_error-put_error r.error (put_fuelled (decoded_value wire r.result)),
    get_fuelled-put_fuelled r.result,
  );
  reads_id = λ r. refl;
}

pub wire-IsWire : IsWire wire
wire-IsWire = record { keeps_ascii = λ s a. refl; exact = λ n small. refl }
