-- ===== src/Hub/Clients/Grouped.antt =====
-- pool/hub.go: FetchClientInfo, FetchAccountClientInfo and FetchPoolHashRate on the same lists.
use eacrpool.Prelude.{
  List, [], ◌∷◌, ◌++◌, ◌≡◌, refl, sym, ap, ◌∙◌, Bool, true, false, Bool-cases, inl, inr, arith,
  if◌then◌else◌,
}
use mathlib.Core.List.{append_assoc, append-nil}
use eacrpool.Bytes.{Bytes, equal, equal-eq}
use eacrpool.Bolt.{lookup}
use eacrpool.Map.{set_key, lookup-set_key}
use eacrpool.Rat.{Rat, add, add_comm, add_assoc}
use eacrpool.Difficulty.{name}
use eacrpool.Endpoint.{Peer, Endpoint}
use eacrpool.Hub.Clients.{
  ClientInfo, ClientInfos, infos_of, append_info, client_info, info_loop, endpoint_loop,
  fetch_client_info, account_infos, fetch_account_client_info, add_rates, rate_loop,
}

infos_of-append_info :
    (account other : Bytes) (info : ClientInfo) (m : ClientInfos)
    → infos_of account (append_info other info m)
      ≡ infos_of account m ++ (if equal other account then info ∷ [] else [])
unfolding infos_of append_info
infos_of-append_info account other info m = elim (Bool-cases (equal other account)) [
  | inl same ↦ ground (
    arith,
    lookup-set_key account other (infos_of other m ++ info ∷ []) m,
    equal-eq other account,
  )
  | inr differs ↦ ground (
    arith,
    lookup-set_key account other (infos_of other m ++ info ∷ []) m,
    append-nil (infos_of account m),
  )
]

pub add_swap : (r s t : Rat) → add (add r s) t ≡ add (add r t) s
add_swap r s t = add_assoc r s t ∙ ap (add r) (add_comm s t) ∙ sym (add_assoc r t s)

pub add_rates-add :
    (infos : List ClientInfo) (r s : Rat) → add_rates infos (add r s) ≡ add (add_rates infos r) s
unfolding add_rates
add_rates-add [] r s = refl
add_rates-add (info ∷ infos) r s =
    ap (add_rates infos) (add_swap r s info.hash_rate)
    ∙ add_rates-add infos (add r info.hash_rate) s

rate_loop-add : (m : ClientInfos) (r s : Rat) → rate_loop m (add r s) ≡ add (rate_loop m r) s
unfolding rate_loop
rate_loop-add [] r s = refl
rate_loop-add ((account, infos) ∷ m) r s =
    ap (rate_loop m) (add_rates-add infos r s) ∙ rate_loop-add m (add_rates infos r) s

add_rates-append :
    (infos : List ClientInfo) (info : ClientInfo) (r : Rat)
    → add_rates (infos ++ info ∷ []) r ≡ add (add_rates infos r) info.hash_rate
unfolding add_rates
add_rates-append [] info r = refl
add_rates-append (i ∷ infos) info r = add_rates-append infos info (add r i.hash_rate)

infos_of-skips :
    (account other : Bytes) (infos : List ClientInfo) (m : ClientInfos)
    → equal other account ≡ false
    → infos_of account ((other, infos) ∷ m) ≡ infos_of account m
unfolding infos_of lookup
infos_of-skips account other infos m differs = ground arith

rate_loop-append_info :
    (account : Bytes) (info : ClientInfo) (m : ClientInfos) (r : Rat)
    → rate_loop (append_info account info m) r ≡ add (rate_loop m r) info.hash_rate
unfolding rate_loop append_info infos_of set_key lookup add_rates
rate_loop-append_info account info [] r = refl
rate_loop-append_info account info ((other, infos) ∷ m) r =
    elim (Bool-cases (equal other account)) [
      | inl same ↦
          rw (append_info, infos_of, lookup, set_key, same)
            (ap (rate_loop m) (add_rates-append infos info r)
              ∙ rate_loop-add m (add_rates infos r) info.hash_rate)
      | inr differs ↦
          rw (append_info, infos_of, lookup, set_key, differs)
            (ap (λ l. rate_loop (set_key account (l ++ info ∷ []) m) (add_rates infos r))
                (infos_of-skips account other infos m differs)
              ∙ rate_loop-append_info account info m (add_rates infos r))
    ]

if_append :
    (b : Bool) (info : ClientInfo) (l : List ClientInfo)
    → (if b then info ∷ [] else []) ++ l ≡ (if b then info ∷ l else l)
if_append true info l = refl
if_append false info l = refl

-- the sum of the rates of the clients of endpoints, onto `r`
unfoldable pub clients_rate : List (Bytes × Peer) → Rat → Rat
clients_rate [] r = r
clients_rate ((id, peer) ∷ rest) r = clients_rate rest (add r peer.client.hash_rate)

unfoldable pub endpoints_rate : List Endpoint → Rat → Rat
unfolding clients_rate
endpoints_rate [] r = r
endpoints_rate (e ∷ rest) r = endpoints_rate rest (clients_rate e.clients r)

module _ (address : Peer → Bytes) where
  info_loop-infos_of :
      (account miner : Bytes) (clients : List (Bytes × Peer)) (m : ClientInfos)
      → infos_of account (info_loop address miner clients m)
        ≡ infos_of account m ++ account_infos address account miner clients
  unfolding info_loop account_infos
  info_loop-infos_of account miner [] m = sym (append-nil (infos_of account m))
  info_loop-infos_of account miner ((id, peer) ∷ rest) m =
      let info = client_info address miner peer in
      let later = account_infos address account miner rest in
      info_loop-infos_of account miner rest (append_info peer.client.account info m)
      ∙ ap (λ l. l ++ later) (infos_of-append_info account peer.client.account info m)
      ∙ append_assoc (infos_of account m)
          (if equal peer.client.account account then info ∷ [] else []) later
      ∙ ap (λ l. infos_of account m ++ l) (if_append (equal peer.client.account account) info later)

  endpoint_loop-infos_of :
      (account : Bytes) (endpoints : List Endpoint) (m : ClientInfos)
      → infos_of account (endpoint_loop address endpoints m)
        ≡ infos_of account m ++ fetch_account_client_info address account endpoints
  unfolding endpoint_loop fetch_account_client_info
  endpoint_loop-infos_of account [] m = sym (append-nil (infos_of account m))
  endpoint_loop-infos_of account (e ∷ rest) m =
      endpoint_loop-infos_of account rest (info_loop address (name e.miner) e.clients m)
      ∙ ap (λ l. l ++ fetch_account_client_info address account rest)
          (info_loop-infos_of account (name e.miner) e.clients m)
      ∙ append_assoc (infos_of account m) (account_infos address account (name e.miner) e.clients)
          (fetch_account_client_info address account rest)

  info_loop-rate :
      (miner : Bytes) (clients : List (Bytes × Peer)) (m : ClientInfos) (r : Rat)
      → rate_loop (info_loop address miner clients m) r ≡ clients_rate clients (rate_loop m r)
  unfolding info_loop clients_rate client_info
  info_loop-rate miner [] m r = refl
  info_loop-rate miner ((id, peer) ∷ rest) m r =
      let info = client_info address miner peer in
      info_loop-rate miner rest (append_info peer.client.account info m) r
      ∙ ap (clients_rate rest) (rate_loop-append_info peer.client.account info m r)

  endpoint_loop-rate :
      (endpoints : List Endpoint) (m : ClientInfos) (r : Rat)
      → rate_loop (endpoint_loop address endpoints m) r ≡ endpoints_rate endpoints (rate_loop m r)
  unfolding endpoint_loop endpoints_rate
  endpoint_loop-rate [] m r = refl
  endpoint_loop-rate (e ∷ rest) m r =
      endpoint_loop-rate rest (info_loop address (name e.miner) e.clients m) r
      ∙ ap (endpoints_rate rest) (info_loop-rate (name e.miner) e.clients m r)

  pub fetch_client_info-infos_of :
      (account : Bytes) (endpoints : List Endpoint)
      → infos_of account (fetch_client_info address endpoints)
        ≡ fetch_account_client_info address account endpoints
  unfolding fetch_client_info infos_of lookup
  fetch_client_info-infos_of account endpoints = endpoint_loop-infos_of account endpoints []

  pub fetch_client_info-rate :
      (endpoints : List Endpoint) (r : Rat)
      → rate_loop (fetch_client_info address endpoints) r ≡ endpoints_rate endpoints r
  unfolding fetch_client_info rate_loop
  fetch_client_info-rate endpoints r = endpoint_loop-rate endpoints [] r
