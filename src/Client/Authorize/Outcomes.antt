-- ===== src/Client/Authorize/Outcomes.antt =====
-- pool/client.go: what handleAuthorizeRequest does on each of its branches.
use eacrpool.Prelude.{
  ℕ, ◌≡◌, refl, ap, ◌⊎◌, inl, inr, Bool, true, false, none, some, [], ◌∷◌, ◌++◌, arith,
  if◌then◌else◌, Bool-cases,
}
use eacrpool.Errors.{Error, Result, ok, err, panic, result_cases}
use eacrpool.Bytes.{Bytes}
use eacrpool.Bolt.{Bolt}
use eacrpool.Db.{Db, account_bkt, fetch_bucket}
use eacrpool.Db.Records.{fetch_value, decoded, put_value_cases}
use eacrpool.Account.{Account, Network, account_id, new_account, fetch_account, create_account}
use eacrpool.Message.{Request, response}
use eacrpool.Message.Requests.{parse_authorize_request}
use eacrpool.Message.Responses.{authorize_response}
use eacrpool.Client.{
  ClientConfig, Codecs, Times, Session, with_db, send, respond, request_id, run_or_reject,
  unknown_error,
}
use eacrpool.Client.Authorize.{
  user_parts, account_known, authorize_account, set_user, authorize_user, handle_authorize_request,
}

user_parts-no_panic : (username : Bytes) → ¬ (user_parts username ≡ panic)
unfolding user_parts
user_parts-no_panic username h = ground arith

account_id-no_panic : (net : Network) (address : Bytes) → ¬ (account_id net address ≡ panic)
unfolding account_id
account_id-no_panic net address h = ground arith

account_known-no_panic : (r : Result Account) → ¬ (r ≡ panic) → ¬ (account_known r ≡ panic)
unfolding account_known
account_known-no_panic r fine h = ground arith

module _ {B : Bolt} (codecs : Codecs) where
  fetch_account-no_panic :
      (id : Bytes) (d : Db B) → ¬ (fetch_account codecs.account_json id d ≡ panic)
  unfolding fetch_account fetch_value decoded fetch_bucket
  fetch_account-no_panic id none h = ground arith
  fetch_account-no_panic id (some p) h = ground arith

  create_account_cases :
      (acc : Account) (d : Db B)
      → (((create_account codecs.account_json acc d).0 ≡ ok tt)
          × (fetch_account codecs.account_json acc.uuid (create_account codecs.account_json acc d).1
              ≡ ok acc))
        ⊎ ((e : Error) × (create_account codecs.account_json acc d ≡ (err e, d)))
  unfolding create_account fetch_account
  create_account_cases acc d = put_value_cases codecs.account_json account_bkt acc.uuid acc d

abbrev pub account_of : Times → Bytes → Bytes → Account
account_of now id address = record { uuid = id; address = address; created_on = now.seconds }

module _ {B : Bolt} {F : Type 0} (cfg : ClientConfig) (codecs : Codecs) (now : Times) where
  -- The session after the user was let in. In pool mode the account of the user's address is the
  -- client's, and it is stored.
  abbrev pub Admitted : Bool → Bytes → Session B F → Session B F → Type 0
  Admitted true username s s' = s' ≡ record s { client = record s.client { name = username } }
  Admitted false username s s' =
      (client_name : Bytes) × (address : Bytes) × (id : Bytes) × (user_parts username
        ≡ ok (client_name, address))
      × (account_id cfg.active_net address ≡ ok id)
      × (fetch_account codecs.account_json id s'.db ≡ ok (account_of now id address))
      × (s'
          ≡ record s { client = record s.client { account = id; name = client_name }; db = s'.db })

  module _ (username : Bytes) (s : Session B F) where
    abbrev Outcome : Type 0
    Outcome =
        ((s' : Session B F) × (authorize_account cfg codecs now username s ≡ (ok tt, s'))
          × Admitted false username s s')
        ⊎ ((e : Error) × (authorize_account cfg codecs now username s ≡ (err e, s)))

    stored_cases :
        (client_name address id : Bytes)
        → user_parts username ≡ ok (client_name, address)
        → account_id cfg.active_net address ≡ ok id
        → account_known (fetch_account codecs.account_json id s.db) ≡ ok tt
        → Outcome
    unfolding authorize_account new_account with_db
    stored_cases client_name address id parts at_id known =
        elim (create_account_cases codecs (account_of now id address) s.db) [
          | inl (done, fetched) ↦ inl (
            record s {
              client = record s.client { account = id; name = client_name };
              db = (create_account codecs.account_json (account_of now id address) s.db).1;
            },
            ground (arith, parts, at_id, known, done),
            (client_name, address, id, parts, at_id, fetched, refl),
          )
          | inr (e, failed) ↦ inr (e, ground (arith, parts, at_id, known, failed))
        ]

    authorize_account_cases : Outcome
    unfolding authorize_account
    authorize_account_cases = elim (result_cases (user_parts username)) [
      | inr (inr failed) ↦ absurd (user_parts-no_panic username failed)
      | inr (inl (e, failed)) ↦ inr (e, ground (arith, failed))
      | inl ((client_name, address), parts) ↦
          elim (result_cases (account_id cfg.active_net address)) [
            | inr (inr failed) ↦ absurd (account_id-no_panic cfg.active_net address failed)
            | inr (inl (e, failed)) ↦ inr (e, ground (arith, parts, failed))
            | inl (id, at_id) ↦ known_cases client_name address id parts at_id
          ]
    ]
      where
        known_cases :
            (client_name address id : Bytes)
            → user_parts username ≡ ok (client_name, address)
            → account_id cfg.active_net address ≡ ok id
            → Outcome
        known_cases client_name address id parts at_id =
            elim (result_cases (account_known (fetch_account codecs.account_json id s.db))) [
              | inl (tt, known) ↦ stored_cases client_name address id parts at_id known
              | inr (inl (e, failed)) ↦ inr (e, ground (arith, parts, at_id, failed))
              | inr (inr failed) ↦ absurd (
                  account_known-no_panic (fetch_account codecs.account_json id s.db)
                    (fetch_account-no_panic codecs id s.db) failed)
            ]

    -- an accepted user or an error, after which the session is as it was
    abbrev pub SetOutcome : Type 0
    SetOutcome =
        ((s' : Session B F) × (set_user cfg codecs now username s ≡ (ok tt, s'))
          × Admitted cfg.solo_pool username s s')
        ⊎ ((e : Error) × (set_user cfg codecs now username s ≡ (err e, s)))

    pub set_user_cases : SetOutcome
    unfolding set_user
    set_user_cases = elim (Bool-cases cfg.solo_pool) [
      | inl solo ↦ inl (
        record s { client = record s.client { name = username } },
        ground (arith, solo),
        rw solo refl,
      )
      | inr pool ↦ elim authorize_account_cases [
        | inl (s', done, admitted) ↦ inl (s', ground (arith, pool, done), rw pool admitted)
        | inr (e, failed) ↦ inr (e, ground (arith, pool, failed))
      ]
    ]

  sent_kept :
      (solo : Bool) (username : Bytes) (s s' : Session B F)
      → Admitted solo username s s'
      → s'.sent ≡ s.sent
  sent_kept true username s s' h = ap (λ x. x.sent) h
  sent_kept false username s s' (_, _, _, _, _, _, h) = ap (λ x. x.sent) h

  -- The response with this status and error is the one message more that the client is sent.
  abbrev pub Answered : ℕ → Bool → Session B F → Session B F → Type 0
  Answered id status s s' = s'.sent ≡ (
      s.sent
      ++ response (authorize_response id status (if status then none else unknown_error)) ∷ [])

  -- what the handler comes to: a refusal, an admission, or the panic of the parser
  abbrev pub AuthorizeOutcome :
      Request F → Bool → ℕ → Session B F → Result (Unit {0}) → Session B F → Type 0
  AuthorizeOutcome req allowed id s r s' =
      ((r ≡ ok tt) × Answered id false s s' × (s' ≡ record s { sent = s'.sent }))
      ⊎ ((username : Bytes) × (admitted : Session B F) × (allowed ≡ true)
          × (parse_authorize_request req ≡ ok username)
          × Admitted cfg.solo_pool username s admitted
          × ((r ≡ ok tt)
              × Answered id true s s'
              × (s' ≡ record admitted {
                client = record admitted.client { authorized = true };
                sent = s'.sent;
              })))
      ⊎ ((parse_authorize_request req ≡ panic) × (r ≡ panic) × (s' ≡ s))

  -- For an authorize request with an ID, the handler answers once. It answers with `false`, and leaves
  -- the session as it was but for the answer; or it answers with `true`, the request was allowed and
  -- parsed, the client is authorized, and its user was let in: in solo mode under the whole user name,
  -- in pool mode with the account of the address in `address.name`, which is stored and can be fetched.
  -- The panic of the parser on an empty list of parameters is the one other outcome.
  pub handle_authorize_request_outcomes :
      (req : Request F) (allowed : Bool) (id : ℕ) (s : Session B F)
      → req.id ≡ some id
      → let (r, s') = handle_authorize_request cfg codecs now req allowed s in
        AuthorizeOutcome req allowed id s r s'
  unfolding handle_authorize_request authorize_user run_or_reject respond send request_id
  handle_authorize_request_outcomes req false id s has_id = inl (ground (arith, has_id))
  handle_authorize_request_outcomes req true id s has_id =
      elim (result_cases (parse_authorize_request req)) [
        | inr (inr failed) ↦ inr (inr (ground (arith, failed)))
        | inr (inl (e, failed)) ↦ inl (ground (arith, has_id, failed))
        | inl (username, parsed) ↦ elim (set_user_cases username s) [
          | inr (e, failed) ↦ inl (ground (arith, has_id, parsed, failed))
          | inl (s', done, admitted) ↦ inr (
              inl (
                username,
                s',
                refl,
                parsed,
                admitted,
                ground
                    (arith, has_id, parsed, done, sent_kept cfg.solo_pool username s s' admitted),
              ))
        ]
      ]
