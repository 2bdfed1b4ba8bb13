-- ===== src/Rpc/Fallback/Tests.antt =====
-- client.go, multiclient.go: the theorems about the configs of a call at concrete ones.
use nkn_sdk_go.Base.{ℕ, List, [], ◌∷◌}
use nkn_sdk_go.Base.Int.{pos}
use nkn_sdk_go.Base.Bytes.{Bytes, text}
use nkn_sdk_go.Errors.{Outcome, ok, err, external}
use nkn_sdk_go.Rpc.Requests.{RpcConfig}
use nkn_sdk_go.Rpc.Fallback.{on_clients}
use nkn_sdk_go.Rpc.Fallback.Order.{usable, AsksInTurn, on_clients-AsksInTurn, steady}

abbrev config_of : List Bytes → RpcConfig
config_of s = record { seed_rpc_server_addr = s; rpc_timeout = pos 10000; rpc_concurrency = pos 1 }

abbrev own : RpcConfig
own = config_of (text "a" ∷ text "b" ∷ [])

abbrev bad : RpcConfig
bad = config_of (text "a" ∷ [])

abbrev nowhere : RpcConfig
nowhere = config_of []

abbrev answer_of : List Bytes → Outcome ℕ
answer_of [] = err (external (pos 2))
answer_of (s ∷ []) = err (external (pos 1))
answer_of (s ∷ r ∷ rest) = ok 5

-- Only two nodes together answer.
abbrev answer : RpcConfig → Outcome ℕ
answer c = answer_of c.seed_rpc_server_addr

on_clients-AsksInTurn_example :
    AsksInTurn
      (steady {W = ℕ} answer)
      (usable (nowhere ∷ bad ∷ []) own)
      0
      (on_clients (nowhere ∷ bad ∷ []) own (steady answer) 0)
on_clients-AsksInTurn_example = on_clients-AsksInTurn (steady answer) (nowhere ∷ bad ∷ []) own 0
