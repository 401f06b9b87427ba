-- ===== src/Hub/Wiring.antt =====
-- pool/hub.go, NewHub: the chain state with the payment manager's callbacks.
use eacrpool.Prelude.{◌≡◌, refl, Bool, true, false, some}
use eacrpool.Errors.{Result, ok}
use eacrpool.Bytes.{Bytes}
use eacrpool.Bolt.{Bolt}
use eacrpool.Json.{Json}
use eacrpool.Db.{work_bkt}
use eacrpool.Db.Records.{find}
use eacrpool.Account.{Account}
use eacrpool.Work.{AcceptedWork, fetch_accepted_work}
use eacrpool.Payment.{Payment}
use eacrpool.Share.{Share, Floats}
use eacrpool.PaymentMgr.{PaymentMgrConfig}
use eacrpool.PaymentMgr.Schemes.{Clock}
use eacrpool.PaymentMgr.Dividends.{Outside, pay_dividends}
use eacrpool.PaymentMgr.Frames.{generate_payments_frame}
use eacrpool.ChainState.{BlockHeader, MsgBlock, ChainStateConfig, Handling, handle_connected}
use eacrpool.ChainState.Connected.Confirms.{Ends, parent_id, handle_connected_confirms}
use eacrpool.Hub.{chain_state_config}

module _ {B : Bolt} {F : Floats} (solo : Bool) (cfg : PaymentMgrConfig F) (share_json : Json Share)
    (payment_json : Json Payment) (account_json : Json Account) (work_json : Json AcceptedWork)
    (clock : Clock) (out : Outside) (get_block : Bytes → Result MsgBlock)
    (from_bytes : Bytes → Result BlockHeader) where
  abbrev pub joined : ChainStateConfig B
  joined =
      chain_state_config solo cfg share_json payment_json account_json clock out get_block
        from_bytes

  -- With the payment manager that NewHub makes: where the header of a connected block parses, paying
  -- dividends succeeds and the work of the parent is stored, it is stored as confirmed at the end,
  -- unless the handler panics or cancels the pool.
  pub pool_confirms :
      (bytes : Bytes) (header : BlockHeader) (work : AcceptedWork) (h : Handling B)
      → h.closed ≡ false
      → from_bytes bytes ≡ ok header
      → (pay_dividends cfg payment_json account_json out header.height h.books).0 ≡ ok tt
      → fetch_accepted_work work_json
          (parent_id header)
          (pay_dividends cfg payment_json account_json out header.height h.books).1.db
        ≡ ok work
      → Ends
          (λ h'.
            find work_bkt work.uuid h'.books.db
            ≡ some (work_json.marshal (record work { confirmed = true })))
          (handle_connected joined work_json payment_json bytes h)
  unfolding chain_state_config
  pool_confirms bytes header work h open' parsed paid fetched =
      handle_connected_confirms joined work_json payment_json bytes header work h open' parsed paid
        fetched
        (λ height coinbase t.
          generate_payments_frame cfg share_json payment_json clock work_bkt work.uuid height
            coinbase t refl refl)
