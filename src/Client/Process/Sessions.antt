-- ===== src/Client/Process/Sessions.antt =====
-- pool/client.go: the life of a connection, as the steps of its goroutines in any order, and what other
-- parts of the pool do to what it shares with them.
use eacrpool.Prelude.{
  ℕ, ◌≡◌, refl, ◌⊎◌, inl, inr, Bool, true, false, not, ◌||◌, List, [], ◌∷◌, ◌++◌, arith, Bool-cases,
}
use eacrpool.Errors.{Result, ok, result_cases}
use eacrpool.Bytes.{Bytes, equal}
use eacrpool.Bolt.{Bolt}
use eacrpool.Db.{Db}
use eacrpool.Difficulty.{Miner}
use eacrpool.Message.{Wire, Message, Request, request, response, notify}
use eacrpool.Message.Identify.{Encoding, identify_message}
use eacrpool.Client.{
  Client, Chain, ClientConfig, Codecs, Session, new_client, generate_extra_nonce_1,
}
use eacrpool.Client.Delivery.{Outlet, encode, miner_work, send_work, send_message}
use eacrpool.Rat.{Rat}
use eacrpool.Client.HashRate.{set_hash_rate, measure_hash_rate}
use eacrpool.Client.Process.{Moment, process_message}
use eacrpool.Client.Process.Evolution.{IsIdentified, Evolves, process_message-Evolves}

-- A session, whose `sent` is what waits in the client's channel, and what was written to the client.
pub record Connection (B : Bolt) (F : Type 0) : Type 0 where
  pub session : Session B F
  pub written : List (Message F)

-- whether there is a work notification among the messages
unfoldable pub has_work : {F : Type 0} → List (Message F) → Bool
has_work [] = false
has_work (request req ∷ rest) = let more = has_work rest in equal req.method notify || more
has_work (response resp ∷ rest) = has_work rest

has_work-append :
    {F : Type 0} (l m : List (Message F)) → has_work (l ++ m) ≡ (has_work l || has_work m)
unfolding has_work
has_work-append [] m = refl
has_work-append (request req ∷ l) m = ground (arith, has_work-append l m)
has_work-append (response resp ∷ l) m = has_work-append l m

-- the client is the same, or cancelled
abbrev SameFlags : Client → Client → Type 0
SameFlags c c' =
    (c'.authorized ≡ c.authorized) × (c'.subscribed ≡ c.subscribed) × (c'.account ≡ c.account)

kept-IsIdentified :
    (cfg : ClientConfig) (c c' : Client) → SameFlags c c' → IsIdentified cfg c → IsIdentified cfg c'
kept-IsIdentified cfg c c' (same, _, account) h on = elim (h (ground (arith, same))) [
  | inl solo ↦ inl solo
  | inr (address, at_id) ↦ inr (address, ground (arith, at_id, account))
]

new-unauthorized :
    (cfg : ClientConfig) (random : Result Bytes) (client : Client)
    → new_client cfg random ≡ ok client
    → client.authorized ≡ false
unfolding new_client generate_extra_nonce_1
new-unauthorized cfg random client new = ground (arith, new)

measure_hash_rate-SameFlags :
    (cfg : ClientConfig) (nonce_iterations : Rat) (average : ℕ → Rat) (c : Client)
    → SameFlags c (measure_hash_rate cfg nonce_iterations average c)
unfolding measure_hash_rate set_hash_rate
measure_hash_rate-SameFlags cfg nonce_iterations average c = ground arith

module _ {F : Type 0} where
  -- work that was written was there, or the client is authorized and subscribed
  abbrev Permits : Outlet F → Outlet F → Type 0
  Permits o o' =
      has_work o'.written ≡ true
      → (has_work o.written ≡ true) ⊎ ((o.client.authorized ≡ true) × (o.client.subscribed ≡ true))

  encode-SameFlags :
      (writes : Bool) (msg : Message F) (o : Outlet F)
      → SameFlags o.client (encode writes msg o).1.client
  unfolding encode
  encode-SameFlags true msg o = (refl, refl, refl)
  encode-SameFlags false msg o = (refl, refl, refl)

  encode-Permits :
      (writes : Bool) (msg : Message F) (o : Outlet F)
      → has_work (msg ∷ []) ≡ false
      → Permits o (encode writes msg o).1
  unfolding encode
  encode-Permits true msg o quiet w = inl (ground (arith, has_work-append o.written (msg ∷ [])))
  encode-Permits false msg o quiet w = inl w

  send_work-SameFlags :
      (miner : Miner) (writes : Bool) (req : Request F) (o : Outlet F)
      → SameFlags o.client (send_work miner writes req o).1.client
  unfolding send_work
  send_work-SameFlags miner writes req o = elim (result_cases (miner_work miner req)) [
    | inl (prepared, fine) ↦ ground (arith, fine, encode-SameFlags writes (request prepared) o)
    | inr (inl (e, failed)) ↦ ground (arith, failed)
    | inr (inr failed) ↦ ground (arith, failed)
  ]

  send_message-SameFlags :
      (miner : Miner) (writes : Bool) (msg : Message F) (o : Outlet F)
      → SameFlags o.client (send_message miner writes msg o).1.client
  unfolding send_message
  send_message-SameFlags miner writes (response resp) o = encode-SameFlags writes (response resp) o
  send_message-SameFlags miner writes (request req) o =
      ground
        (arith, encode-SameFlags writes (request req) o, send_work-SameFlags miner writes req o)

  send_message-Permits :
      (miner : Miner) (writes : Bool) (msg : Message F) (o : Outlet F)
      → Permits o (send_message miner writes msg o).1
  unfolding send_message has_work
  send_message-Permits miner writes (response resp) o w =
      encode-Permits writes (response resp) o refl w
  send_message-Permits miner writes (request req) o w =
      elim (Bool-cases (equal req.method notify)) [
        | inr other ↦
            encode-Permits writes (request req) o (ground (arith, other)) (ground (arith, other, w))
        | inl work ↦ elim (Bool-cases (not o.client.authorized || not o.client.subscribed)) [
          | inl refused ↦ inl (ground (arith, work, refused, w))
          | inr let_in ↦ inr (ground (arith, let_in))
        ]
      ]

module _ {W : Wire} {B : Bolt} (E : Encoding W) (chain : Chain) (cfg : ClientConfig)
    (codecs : Codecs) where
  -- `received` is read and process on one line of data, `posted` a message that the hub puts in the
  -- channel, `measured` a tick of the hash monitor, `delivered` the body of send on the first message of the channel, and `shared` what other
  -- clients and the hub do to the database.
  pub data Step (c : Connection B W.Float) : Connection B W.Float → Type 0 where
    received :
        (data_bytes : Bytes) (payload : Message W.Float × ℕ) (at : Moment) (allowed : Bool)
        → identify_message E data_bytes ≡ ok payload
        → Step c (record c {
          session = (process_message chain cfg codecs at payload allowed c.session).1;
        })
    posted :
        (msg : Message W.Float)
        → Step c (record c { session = record c.session { sent = c.session.sent ++ msg ∷ [] } })
    delivered :
        (writes : Bool) (msg : Message W.Float) (rest : List (Message W.Float))
        → c.session.sent ≡ msg ∷ rest
        → Step c (
            let o =
              (send_message cfg.miner writes msg
                (record { client = c.session.client; written = c.written })).1 in
            record {
              session = record c.session { client = o.client; sent = rest };
              written = o.written;
            })
    measured :
        (nonce_iterations : Rat) (average : ℕ → Rat)
        → Step c (record c {
          session = record c.session {
            client = measure_hash_rate cfg nonce_iterations average c.session.client;
          };
        })
    shared : (d : Db B) → Step c (record c { session = record c.session { db = d } })

  -- what a client's connection comes to, from the start
  pub data Reach : Connection B W.Float → Type 0 where
    start :
        (random : Result Bytes) (client : Client) (d : Db B)
        → new_client cfg random ≡ ok client
        → Reach (record {
          session = record { client = client; db = d; sent = []; submitted = [] };
          written = [];
        })
    next : {c c' : Connection B W.Float} → Reach c → Step c c' → Reach c'

  pub record IsSound (c : Connection B W.Float) : Type 0 where
    pub identified : IsIdentified cfg c.session.client
    pub permitted :
        has_work c.written ≡ true
        → (c.session.client.authorized ≡ true) × (c.session.client.subscribed ≡ true)

  evolved-IsSound :
      (c : Connection B W.Float) (s : Session B W.Float)
      → Evolves cfg c.session.client s.client
      → IsSound c
      → IsSound (record c { session = s })
  evolved-IsSound c s e h = record {
    identified = e.identified h.identified;
    permitted = λ w. (e.authorized (h.permitted w).0, e.subscribed (h.permitted w).1);
  }

  Step-IsSound : {c c' : Connection B W.Float} → Step c c' → IsSound c → IsSound c'
  Step-IsSound {c} (received data_bytes payload at allowed identified) h =
      evolved-IsSound c (process_message chain cfg codecs at payload allowed c.session).1
        (process_message-Evolves cfg chain codecs at payload allowed c.session) h
  Step-IsSound (posted msg) h = record { identified = h.identified; permitted = h.permitted }
  Step-IsSound {c} (measured nonce_iterations average) h =
      let same = measure_hash_rate-SameFlags cfg nonce_iterations average c.session.client in
      record {
        identified =
            kept-IsIdentified cfg c.session.client
              (measure_hash_rate cfg nonce_iterations average c.session.client) same h.identified;
        permitted = λ w. ground (arith, same, h.permitted w);
      }
  Step-IsSound (shared d) h = record { identified = h.identified; permitted = h.permitted }
  Step-IsSound {c} (delivered writes msg rest pending) h =
      let o : Outlet W.Float = record { client = c.session.client; written = c.written } in
      let same = send_message-SameFlags cfg.miner writes msg o in
      record {
        identified =
            kept-IsIdentified cfg o.client (send_message cfg.miner writes msg o).1.client same
              h.identified;
        permitted = λ w. elim (send_message-Permits cfg.miner writes msg o w) [
          | inl before ↦ ground (arith, same, h.permitted before)
          | inr allowed ↦ ground (arith, same, allowed)
        ];
      }

  -- Whatever a client sends, whatever the hub puts in its channel and the other parts of the pool do to
  -- the database, and in whatever order its goroutines step: outside solo mode an authorized client has
  -- the account id of a valid address, and work was written to it only if it is authorized and
  -- subscribed.
  pub Reach-IsSound : {c : Connection B W.Float} → Reach c → IsSound c
  unfolding has_work
  Reach-IsSound (start random client d new) = record {
    identified = λ on. absurd (ground (arith, new-unauthorized cfg random client new, on));
    permitted = λ w. absurd (ground (arith, w));
  }
  Reach-IsSound (next r step) = Step-IsSound step (Reach-IsSound r)
