-- ===== src/Client/Process/Evolution.antt =====
-- pool/client.go: how the handlers change a client.
use eacrpool.Prelude.{
  ℕ, ◌≡◌, refl, ap, sym, ◌⊎◌, inl, inr, Bool, true, false, arith, if◌then◌else◌, ◌==◌,
}
use mathlib.Core.Path.{subst}
use eacrpool.Errors.{ok, panic, result_cases}
use eacrpool.Bytes.{Bytes, equal}
use eacrpool.Bolt.{Bolt}
use eacrpool.Exec.{Exec, lift, ◌>>◌}
use eacrpool.Account.{account_id}
use eacrpool.Message.{
  Message, Request, request, response, authorize, subscribe, submit, request_message,
  response_message, Response,
}
use eacrpool.Message.Requests.{parse_authorize_request, parse_subscribe_request}
use eacrpool.Client.{
  Client, Chain, ClientConfig, Codecs, Times, Session, set_client, send, respond, run_or_reject,
  with_db,
}
use eacrpool.Client.Authorize.{authorize_user, handle_authorize_request}
use eacrpool.Client.Authorize.Outcomes.{Admitted, set_user_cases}
use eacrpool.Client.Subscribe.{accept_subscription, handle_subscribe_request, set_client_difficulty}
use eacrpool.Client.Submit.{handle_submit_work_request}
use eacrpool.Client.Submit.Outcomes.{respond-OnlySends, handle_submit_work_request-Effects}
use eacrpool.Client.CurrentWork.{update_client_work, send_rolled}
use eacrpool.Client.Process.{Moment, process_request, process_response, process_message, cancel}

module _ (cfg : ClientConfig) where
  -- an authorized client of a pool that is not in solo mode has the account of an address
  abbrev pub IsIdentified : Client → Type 0
  IsIdentified c =
      c.authorized ≡ true
      → (cfg.solo_pool ≡ true)
        ⊎ ((address : Bytes) × (account_id cfg.active_net address ≡ ok c.account))

  -- What is authorized or subscribed stays so, and an identified client stays identified.
  pub record Evolves (c c' : Client) : Type 0 where
    pub authorized : c.authorized ≡ true → c'.authorized ≡ true
    pub subscribed : c.subscribed ≡ true → c'.subscribed ≡ true
    pub identified : IsIdentified c → IsIdentified c'

  Evolves-eq : (c c' : Client) → c' ≡ c → Evolves c c'
  Evolves-eq c c' e = record {
    authorized = λ h. ground (arith, ap (λ x. x.authorized) e);
    subscribed = λ h. ground (arith, ap (λ x. x.subscribed) e);
    identified = λ h. subst IsIdentified (sym e) h;
  }

  pub Evolves-trans : (a b c : Client) → Evolves a b → Evolves b c → Evolves a c
  Evolves-trans a b c p q = record {
    authorized = λ h. q.authorized (p.authorized h);
    subscribed = λ h. q.subscribed (p.subscribed h);
    identified = λ h. q.identified (p.identified h);
  }

  subscribed-Evolves : (c : Client) → Evolves c (record c { subscribed = true })
  subscribed-Evolves c = record {
    authorized = λ h. h;
    subscribed = λ _. refl;
    identified = λ h on. h on;
  }

  module _ {B : Bolt} {F : Type 0} where
    -- a call that every client evolves by
    abbrev Steps : Exec (Session B F) (Unit {0}) → Type 0
    Steps m = (s : Session B F) → Evolves s.client (m s).1.client

    Steps-then : (m k : Exec (Session B F) (Unit {0})) → Steps m → Steps k → Steps (m >> k)
    Steps-then m k p q s = elim (result_cases (m s).0) [
      | inl (u, done) ↦
          subst (λ (c : Client). Evolves s.client c) (sym (ground (arith, done)))
            (Evolves-trans s.client (m s).1.client (k (m s).1).1.client (p s) (q (m s).1))
      | inr (inl (e, failed)) ↦
          subst (λ (c : Client). Evolves s.client c) (sym (ground (arith, failed))) (p s)
      | inr (inr failed) ↦
          subst (λ (c : Client). Evolves s.client c) (sym (ground (arith, failed))) (p s)
    ]

    -- the same, as a property that names the call
    record StepsBy (m : Exec (Session B F) (Unit {0})) : Type 0 where
      evolves : Steps m

    if-StepsBy :
        (b : Bool) {m k : Exec (Session B F) (Unit {0})}
        → StepsBy m
        → StepsBy k
        → StepsBy (if b then m else k)
    if-StepsBy true p q = p
    if-StepsBy false p q = q

    then-StepsBy : {m k : Exec (Session B F) (Unit {0})} → StepsBy m → StepsBy k → StepsBy (m >> k)
    then-StepsBy {m} {k} p q = record { evolves = Steps-then m k p.evolves q.evolves }

    respond-Steps : (req : Request F) (make : ℕ → _) → Steps (respond req make)
    respond-Steps req make s = Evolves-eq _ _ (ap (λ x. x.client) (respond-OnlySends req make s))

    module _ (codecs : Codecs) (now : Times) where
      Admitted-IsIdentified :
          (solo : Bool) (username : Bytes) (s s' : Session B F)
          → solo ≡ cfg.solo_pool
          → Admitted cfg codecs now solo username s s'
          → IsIdentified (record s'.client { authorized = true })
      Admitted-IsIdentified true username s s' e h _ = inl (sym e)
      Admitted-IsIdentified false username s s' e (_, address, id, _, at_id, _, h) _ =
          inr (address, ground (arith, at_id, ap (λ x. x.client.account) h))

      Admitted-subscribed :
          (solo : Bool) (username : Bytes) (s s' : Session B F)
          → Admitted cfg codecs now solo username s s'
          → s'.client.subscribed ≡ s.client.subscribed
      Admitted-subscribed true username s s' h = ap (λ x. x.client.subscribed) h
      Admitted-subscribed false username s s' (_, _, _, _, _, _, h) =
          ap (λ x. x.client.subscribed) h

      Admitted-Evolves :
          (username : Bytes) (s s' : Session B F)
          → Admitted cfg codecs now cfg.solo_pool username s s'
          → Evolves s.client (record s'.client { authorized = true })
      Admitted-Evolves username s s' h = record {
        authorized = λ _. refl;
        subscribed = λ on. ground (arith, Admitted-subscribed cfg.solo_pool username s s' h);
        identified = λ _. Admitted-IsIdentified cfg.solo_pool username s s' refl h;
      }

      authorize-Steps :
          (req : Request F) (allowed : Bool)
          → Steps (handle_authorize_request cfg codecs now req allowed)
      unfolding handle_authorize_request authorize_user run_or_reject
      authorize-Steps req false s = respond-Steps req _ s
      authorize-Steps req true s = elim (result_cases (parse_authorize_request req)) [
        | inr (inr failed) ↦ Evolves-eq _ _ (ground (arith, failed))
        | inr (inl (e, failed)) ↦
            Evolves-eq _ _ (ground (arith, failed, ap (λ x. x.client) (respond-OnlySends req _ s)))
        | inl (username, parsed) ↦ elim (set_user_cases cfg codecs now username s) [
          | inr (e, failed) ↦
              Evolves-eq _ _
                (ground (arith, parsed, failed, ap (λ x. x.client) (respond-OnlySends req _ s)))
          | inl (s', done, admitted) ↦
              subst (λ (c : Client). Evolves s.client c)
                (sym (
                  ground (
                    arith,
                    parsed,
                    done,
                    ap (λ x. x.client)
                        (respond-OnlySends req _
                          (record s' { client = record s'.client { authorized = true } })),
                  )))
                (Admitted-Evolves username s s' admitted)
        ]
      ]

    accept_subscription-Steps :
        (req : Request F) (nid : Bytes) → Steps (accept_subscription cfg req nid)
    unfolding accept_subscription
    accept_subscription-Steps req nid s =
        Steps-then (respond req _) (set_client λ c. record c { subscribed = true })
          (respond-Steps req _) (λ t. subscribed-Evolves t.client) s

    subscribe-Steps :
        (req : Request F) (allowed : Bool) → Steps (handle_subscribe_request cfg req allowed)
    unfolding handle_subscribe_request run_or_reject
    subscribe-Steps req false s = respond-Steps req _ s
    subscribe-Steps req true s = elim (result_cases (parse_subscribe_request req)) [
      | inr (inr failed) ↦ Evolves-eq _ _ (ground (arith, failed))
      | inr (inl (e, failed)) ↦
          Evolves-eq _ _ (ground (arith, failed, ap (λ x. x.client) (respond-OnlySends req _ s)))
      | inl ((miner, nid), parsed) ↦
          subst (λ (c : Client). Evolves s.client c) (sym (ground (arith, parsed)))
            (accept_subscription-Steps req nid s)
    ]

    module _ (codecs : Codecs) (now : Times) where
      send_rolled-client :
          (ready : Bool) (work : Bytes) (s : Session B F)
          → (send_rolled codecs now ready work s).1.client ≡ s.client
      unfolding send_rolled with_db send run_or_reject
      send_rolled-client ready work s = ground arith

      update_client_work-Steps :
          (ready : Bool) (work : Bytes) (allowed : Bool)
          → Steps (update_client_work codecs now ready work allowed)
      unfolding update_client_work
      update_client_work-Steps ready work allowed s =
          Evolves-eq _ _ (ground (arith, send_rolled-client ready work s))

      submit-Steps :
          (chain : Chain) (req : Request F) (allowed : Bool)
          → Steps (handle_submit_work_request chain cfg codecs now req allowed)
      submit-Steps chain req allowed s =
          elim (handle_submit_work_request-Effects chain cfg codecs now req allowed s) [
            | inl only ↦ Evolves-eq _ _ (ap (λ x. x.client) only)
            | inr (_, _, _, _, _, _, _, (counts, _)) ↦ record {
              authorized = λ h. ground (arith, ap (λ x. x.authorized) counts);
              subscribed = λ h. ground (arith, ap (λ x. x.subscribed) counts);
              identified = λ h. subst IsIdentified (sym counts) h;
            }
          ]

    module _ (chain : Chain) (codecs : Codecs) (at : Moment) where
      difficulty-StepsBy : StepsBy (set_client_difficulty cfg at.whole)
      unfolding set_client_difficulty send
      difficulty-StepsBy = record { evolves = λ s. Evolves-eq _ _ refl }

      work-StepsBy :
          (allowed : Bool) → StepsBy (update_client_work codecs at.rolled at.ready at.work allowed)
      work-StepsBy allowed = record {
        evolves = update_client_work-Steps codecs at.rolled at.ready at.work allowed;
      }

      cancel-StepsBy : StepsBy (cancel chain cfg codecs at)
      cancel-StepsBy = record {
        evolves =
            λ s. record { authorized = λ h. h; subscribed = λ h. h; identified = λ h on. h on };
      }

      panic-StepsBy : StepsBy (lift panic)
      panic-StepsBy = record { evolves = λ s. Evolves-eq _ _ refl }

      request-StepsBy :
          (req : Request F) (allowed : Bool)
          → StepsBy (process_request chain cfg codecs at req allowed)
      unfolding process_request
      request-StepsBy req allowed =
          if-StepsBy (equal req.method authorize)
            (then-StepsBy (record { evolves = authorize-Steps codecs at.handled req allowed })
              (then-StepsBy difficulty-StepsBy (work-StepsBy allowed)))
            (if-StepsBy (equal req.method subscribe)
              (record { evolves = subscribe-Steps req allowed })
              (if-StepsBy (equal req.method submit)
                (then-StepsBy
                  (record { evolves = submit-Steps codecs at.handled chain req allowed })
                  (work-StepsBy allowed))
                cancel-StepsBy))

      response-StepsBy : (resp : Response F) → StepsBy (process_response chain cfg codecs at resp)
      unfolding process_response
      response-StepsBy resp = if-StepsBy _ cancel-StepsBy cancel-StepsBy

      message-StepsBy :
          (payload : Message F × ℕ) (allowed : Bool)
          → StepsBy (process_message chain cfg codecs at payload allowed)
      unfolding process_message
      message-StepsBy (request req, kind) allowed =
          if-StepsBy (kind == request_message) (request-StepsBy req allowed)
            (if-StepsBy (kind == response_message) panic-StepsBy cancel-StepsBy)
      message-StepsBy (response resp, kind) allowed =
          if-StepsBy (kind == request_message) panic-StepsBy
            (if-StepsBy (kind == response_message) (response-StepsBy resp) cancel-StepsBy)

      -- A client evolves by every message that it sends, whatever its kind.
      pub process_message-Evolves :
          (payload : Message F × ℕ) (allowed : Bool) (s : Session B F)
          → Evolves s.client (process_message chain cfg codecs at payload allowed s).1.client
      process_message-Evolves payload allowed s = (message-StepsBy payload allowed).evolves s
