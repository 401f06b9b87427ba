-- ===== src/Hub/Clients/Walks.antt =====
-- pool/hub.go: the lists of clients and the hash rate, whatever the order of the walks over the maps.
use eacrpool.Prelude.{List, [], ◌∷◌, ◌≡◌, refl, sym, ap, ◌∙◌, Bool, true, false, if◌then◌else◌}
use mathlib.Core.Path.{subst}
use mathlib.Core.Logic.{∥∥₁_elim}
use mathlib.Core.List.{Perm, Permᴰ, Perm-prop}
use mathlib.Core.List.Perm
use eacrpool.Bytes.{Bytes, equal}
use eacrpool.Rat.{Rat, zero_rat, add}
use eacrpool.Difficulty.{name}
use eacrpool.Endpoint.{Peer, Endpoint}
use eacrpool.Hub.Clients.{
  ClientInfo, ClientInfos, infos_of, client_info, fetch_client_info, account_infos,
  fetch_account_client_info, add_rates, rate_loop, fetch_pool_hash_rate,
}
use eacrpool.Hub.Clients.Grouped.{
  add_swap, add_rates-add, clients_rate, endpoints_rate, fetch_client_info-infos_of,
  fetch_client_info-rate,
}

-- The same endpoints, the clients of each in some other order.
pub data WalkedAgain : List Endpoint → List Endpoint → Type 0 where
  none_left : WalkedAgain [] []
  walked :
      {es again : List Endpoint} (e : Endpoint) (clients : List (Bytes × Peer))
      → Perm e.clients clients
      → WalkedAgain es again
      → WalkedAgain (e ∷ es) (record e { clients = clients } ∷ again)

Rat_set : IsSet Rat
Rat_set = hlevel

if_cons-Perm :
    (b : Bool) (info : ClientInfo) {l l' : List ClientInfo}
    → Perm l l'
    → Perm (if b then info ∷ l else l) (if b then info ∷ l' else l')
if_cons-Perm true info p = Perm.cons info p
if_cons-Perm false info p = p

if_swap-Perm :
    (b c : Bool) (i j : ClientInfo) (l : List ClientInfo)
    → Perm
        (if b then i ∷ (if c then j ∷ l else l) else if c then j ∷ l else l)
        (if c then j ∷ (if b then i ∷ l else l) else if b then i ∷ l else l)
if_swap-Perm true true i j l = Perm.swap j i l
if_swap-Perm true false i j l = Perm.refl (i ∷ l)
if_swap-Perm false true i j l = Perm.refl (j ∷ l)
if_swap-Perm false false i j l = Perm.refl l

clients_rate-Permᴰ :
    {l l' : List (Bytes × Peer)} (r : Rat) → Permᴰ l l' → clients_rate l r ≡ clients_rate l' r
unfolding clients_rate
clients_rate-Permᴰ r Permᴰ.nil = refl
clients_rate-Permᴰ r (Permᴰ.cons {a = a} {l₂ = l₂} e d) =
    clients_rate-Permᴰ (add r a.1.client.hash_rate) d
    ∙ ap (λ p. clients_rate l₂ (add r p.1.client.hash_rate)) e
clients_rate-Permᴰ r (Permᴰ.swap {a = a} {b = b} {a' = a'} {b' = b'} {l = l} e₁ e₂) =
    ap (clients_rate l) (add_swap r a.1.client.hash_rate b.1.client.hash_rate)
    ∙ ap (λ p. clients_rate l (add (add r p.1.client.hash_rate) a.1.client.hash_rate)) e₂
    ∙ ap (λ p. clients_rate l (add (add r a'.1.client.hash_rate) p.1.client.hash_rate)) e₁
clients_rate-Permᴰ r (Permᴰ.trans d₁ d₂) = clients_rate-Permᴰ r d₁ ∙ clients_rate-Permᴰ r d₂

endpoints_rate-WalkedAgain :
    {es again : List Endpoint} (r : Rat)
    → WalkedAgain es again
    → endpoints_rate es r ≡ endpoints_rate again r
unfolding endpoints_rate
endpoints_rate-WalkedAgain r none_left = refl
endpoints_rate-WalkedAgain r (walked {again = again} e clients p rest) =
    let same =
      ∥∥₁_elim p (Rat_set (clients_rate e.clients r) (clients_rate clients r))
        (clients_rate-Permᴰ r) in
    endpoints_rate-WalkedAgain (clients_rate e.clients r) rest ∙ ap (endpoints_rate again) same

add_rates_comm :
    (is js : List ClientInfo) (r : Rat)
    → add_rates is (add_rates js r) ≡ add_rates js (add_rates is r)
unfolding add_rates
add_rates_comm [] js r = refl
add_rates_comm (i ∷ is) js r =
    ap (add_rates is) (sym (add_rates-add js r i.hash_rate))
    ∙ add_rates_comm is js (add r i.hash_rate)

rate_loop-Permᴰ : {m m' : ClientInfos} (r : Rat) → Permᴰ m m' → rate_loop m r ≡ rate_loop m' r
unfolding rate_loop
rate_loop-Permᴰ r Permᴰ.nil = refl
rate_loop-Permᴰ r (Permᴰ.cons {a = a} {l₂ = l₂} e d) =
    rate_loop-Permᴰ (add_rates a.1 r) d ∙ ap (λ p. rate_loop l₂ (add_rates p.1 r)) e
rate_loop-Permᴰ r (Permᴰ.swap {a = a} {b = b} {a' = a'} {b' = b'} {l = l} e₁ e₂) =
    ap (rate_loop l) (add_rates_comm b.1 a.1 r)
    ∙ ap (λ p. rate_loop l (add_rates a.1 (add_rates p.1 r))) e₂
    ∙ ap (λ p. rate_loop l (add_rates p.1 (add_rates a'.1 r))) e₁
rate_loop-Permᴰ r (Permᴰ.trans d₁ d₂) = rate_loop-Permᴰ r d₁ ∙ rate_loop-Permᴰ r d₂

module _ (address : Peer → Bytes) (account : Bytes) where
  account_infos-Permᴰ :
      (miner : Bytes) {l l' : List (Bytes × Peer)}
      → Permᴰ l l'
      → Perm (account_infos address account miner l) (account_infos address account miner l')
  unfolding account_infos
  account_infos-Permᴰ miner Permᴰ.nil = Perm.nil
  account_infos-Permᴰ miner (Permᴰ.cons {a = a} {l₁ = l₁} {l₂ = l₂} e d) =
      subst
        (λ b.
          Perm (account_infos address account miner (a ∷ l₁))
            (account_infos address account miner (b ∷ l₂)))
        e
        (if_cons-Perm (equal a.1.client.account account) (client_info address miner a.1)
          (account_infos-Permᴰ miner d))
  account_infos-Permᴰ miner (Permᴰ.swap {a = a} {b = b} {a' = a'} {l = l} e₁ e₂) =
      subst
        (λ c.
          Perm (account_infos address account miner (a ∷ b ∷ l))
            (account_infos address account miner (a' ∷ c ∷ l)))
        e₁
        (subst
          (λ c.
            Perm (account_infos address account miner (a ∷ b ∷ l))
              (account_infos address account miner (c ∷ a ∷ l)))
          e₂
          (if_swap-Perm (equal a.1.client.account account) (equal b.1.client.account account)
            (client_info address miner a.1) (client_info address miner b.1)
            (account_infos address account miner l)))
  account_infos-Permᴰ miner (Permᴰ.trans d₁ d₂) =
      Perm.trans (account_infos-Permᴰ miner d₁) (account_infos-Permᴰ miner d₂)

  fetch_account_client_info-Perm :
      {es again : List Endpoint}
      → WalkedAgain es again
      → Perm
          (fetch_account_client_info address account es)
          (fetch_account_client_info address account again)
  unfolding fetch_account_client_info
  fetch_account_client_info-Perm none_left = Perm.nil
  fetch_account_client_info-Perm (walked e clients p rest) =
      Perm.append (∥∥₁_elim p Perm-prop (account_infos-Permᴰ (name e.miner)))
        (fetch_account_client_info-Perm rest)

  -- Whatever the order in which each loop walks the clients of an endpoint, and the accounts: the clients
  -- that FetchClientInfo lists under an account are those that FetchAccountClientInfo lists for it, each
  -- as often, and FetchPoolHashRate gives the sum of the hash rates of all clients.
  pub client_info_agrees :
      (walk : ClientInfos → ClientInfos) (endpoints again : List Endpoint)
      → ((m : ClientInfos) → Perm m (walk m))
      → WalkedAgain endpoints again
      → Perm
          (infos_of account (fetch_client_info address endpoints))
          (fetch_account_client_info address account again)
        × ((fetch_pool_hash_rate address walk endpoints).0 ≡ endpoints_rate again zero_rat)
  unfolding fetch_pool_hash_rate
  client_info_agrees walk endpoints again reorders walks = (
    subst (λ l. Perm l (fetch_account_client_info address account again))
        (sym (fetch_client_info-infos_of address account endpoints))
        (fetch_account_client_info-Perm walks),
    sym (
          ∥∥₁_elim (reorders (fetch_client_info address endpoints))
            (Rat_set (rate_loop (fetch_client_info address endpoints) zero_rat)
              (rate_loop (walk (fetch_client_info address endpoints)) zero_rat))
            (rate_loop-Permᴰ zero_rat))
        ∙ fetch_client_info-rate address endpoints zero_rat
        ∙ endpoints_rate-WalkedAgain zero_rat walks,
  )
