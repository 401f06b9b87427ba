-- ===== src/Client/Authorize.antt =====
-- pool/client.go, handleAuthorizeRequest.
pub mod Outcomes
use eacrpool.Prelude.{ℕ, Bool, true, false, not, none, List, [], ◌∷◌, if◌then◌else◌}
use eacrpool.Errors.{Error, Result, ok, err, panic, make_error, other, value_not_found, is_error}
use eacrpool.Bytes.{Bytes}
use eacrpool.Strings.{split, trim_space}
use eacrpool.Bolt.{Bolt}
use eacrpool.Db.{Db}
use eacrpool.Exec.{Exec, lift, reads, ◌>>=◌, ◌>>◌}
use eacrpool.Account.{Account, account_id, new_account, fetch_account, create_account}
use eacrpool.Message.{Request}
use eacrpool.Message.Requests.{parse_authorize_request}
use eacrpool.Message.Responses.{authorize_response}
use eacrpool.Client.{
  Client, ClientConfig, Codecs, Times, Session, set_client, with_db, respond, run_or_reject,
  unknown_error,
}

-- the name and the address of the user `address.name`
unfoldable pub user_parts : Bytes → Result (Bytes × Bytes)
user_parts username = elim (split 46 username) [
  | address ∷ client_name ∷ [] ↦ ok (trim_space client_name, trim_space address)
  | _ ↦ err (make_error other)
]

-- whether FetchAccount lets the handler go on: a missing account does
unfoldable pub account_known : Result Account → Result (Unit {0})
account_known (ok _) = ok tt
account_known (err e) = if is_error e value_not_found then ok tt else err e
account_known panic = panic

module _ {B : Bolt} {F : Type 0} (cfg : ClientConfig) (codecs : Codecs) (now : Times) where
  -- The account is stored whether or not there is one.
  unfoldable pub authorize_account : Bytes → Exec (Session B F) (Unit {0})
  unfolding user_parts account_known with_db
  authorize_account username = do
    (client_name, address) ← lift (user_parts username)
    id ← lift (account_id cfg.active_net address)
    reads λ s. account_known (fetch_account codecs.account_json id s.db)
    account ← lift (new_account cfg.active_net now.seconds address)
    with_db (create_account codecs.account_json account)
    set_client λ c. record c { account = id; name = client_name }

  unfoldable pub set_user : Bytes → Exec (Session B F) (Unit {0})
  unfolding authorize_account
  set_user username =
      if cfg.solo_pool
      then (set_client λ c. record c { name = username })
      else authorize_account username

  unfoldable pub authorize_user : Request F → Exec (Session B F) (Unit {0})
  unfolding set_user
  authorize_user req = do username ← lift (parse_authorize_request req); set_user username

  unfoldable pub handle_authorize_request : Request F → Bool → Exec (Session B F) (Unit {0})
  unfolding authorize_user respond run_or_reject
  handle_authorize_request req allowed =
      let rejected = respond req λ id. authorize_response id false unknown_error in
      if not allowed
      then rejected
      else run_or_reject (authorize_user req) rejected λ _. do
        set_client λ c. record c { authorized = true }
        respond req λ id. authorize_response id true none
