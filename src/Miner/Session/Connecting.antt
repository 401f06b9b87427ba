-- ===== src/Miner/Session/Connecting.antt =====
-- cmd/miner/client.go: keepAlive and read.
use eacrpool.Prelude.{refl, true, ◌+◌, ◌%◌, ◌^◌, arith, Bool-cases, inl, inr}
use eacrpool.Errors.{Result, ok, err, panic}
use eacrpool.Exec.{modify, ◌>>◌}
use eacrpool.Message.{authorize, subscribe}
use eacrpool.Miner.{
  Config, record_request, authenticate, subscribe_miner, keep_alive, lose_connection,
}
use eacrpool.Miner.Session.{has_header, Keeps, bind-IsSound, same-IsSound, record_request-IsSound}

module _ {F : Type 0} where
  authenticate-IsSound :
      (cfg : Config) (encoded : Result (Unit {0})) → Keeps {F = F} (authenticate cfg encoded)
  unfolding authenticate
  authenticate-IsSound cfg (ok u) m s =
      same-IsSound (record_request ((m.id + 1) % 2 ^ 64) authorize m).1
        (authenticate cfg (ok u) m).1 refl refl refl refl
        (record_request-IsSound ((m.id + 1) % 2 ^ 64) authorize m s)
  authenticate-IsSound cfg (err e) m s =
      same-IsSound m (authenticate cfg (err e) m).1 refl refl refl refl s
  authenticate-IsSound cfg panic m s =
      same-IsSound m (authenticate cfg panic m).1 refl refl refl refl s

  subscribe_miner-IsSound :
      (cfg : Config) (encoded : Result (Unit {0})) → Keeps {F = F} (subscribe_miner cfg encoded)
  unfolding subscribe_miner
  subscribe_miner-IsSound cfg (ok u) m s =
      same-IsSound (record_request ((m.id + 1) % 2 ^ 64) subscribe m).1
        (subscribe_miner cfg (ok u) m).1 refl refl refl refl
        (record_request-IsSound ((m.id + 1) % 2 ^ 64) subscribe m s)
  subscribe_miner-IsSound cfg (err e) m s =
      same-IsSound m (subscribe_miner cfg (err e) m).1 refl refl refl refl s
  subscribe_miner-IsSound cfg panic m s =
      same-IsSound m (subscribe_miner cfg panic m).1 refl refl refl refl s

  connected-IsSound : Keeps {F = F} (modify λ n. record n { connected = true })
  connected-IsSound n s = same-IsSound n (record n { connected = true }) refl refl refl refl s

  pub keep_alive-IsSound :
      (cfg : Config) (subscribed authenticated : Result (Unit {0}))
      → Keeps {F = F} (keep_alive cfg subscribed authenticated)
  unfolding keep_alive
  keep_alive-IsSound cfg subscribed authenticated m s =
      let connect = modify λ n. record n { connected = true } in
      elim (Bool-cases m.connected) [
        | inl connected ↦ simp (keep_alive, connected) s
        | inr lost ↦
            simp (keep_alive, lost)
              (bind-IsSound (subscribe_miner cfg subscribed)
                (λ _. authenticate cfg authenticated >> connect)
                (subscribe_miner-IsSound cfg subscribed)
                (λ _.
                  bind-IsSound (authenticate cfg authenticated) (λ _. connect)
                    (authenticate-IsSound cfg authenticated) λ _. connected-IsSound)
                m s)
      ]

  pub lose_connection-IsSound : Keeps {F = F} lose_connection
  unfolding has_header
  lose_connection-IsSound m s = record {
    admitted = λ h. ground arith;
    asked_authorize = s.asked_authorize;
    asked_subscribe = s.asked_subscribe;
  }
