-- ===== src/MultiClient/Reconnect/Tests.antt =====
-- multiclient.go: a reconnect of two clients.
use nkn_sdk_go.Base.{ℕ, ◌≡◌, Bool, true, false, some, [], ◌∷◌}
use nkn_sdk_go.Base.Int.{pos}
use nkn_sdk_go.Errors.{ok}
use nkn_sdk_go.MultiClient.Policy.{no_cross_send}
use nkn_sdk_go.MultiClient.Sending.{MultiClient}
use nkn_sdk_go.MultiClient.Reconnect.{reconnect_all}
use nkn_sdk_go.MultiClient.Reconnect.Asked.{AreAsked, reconnect_all-AreAsked}
use nkn_sdk_go.Fixtures.Clients.{toy_client, toy_client-IsValid}

abbrev two : MultiClient ℕ
two = record {
  clients = (pos 0, some toy_client) ∷ (pos 1, some toy_client) ∷ [];
  policy = no_cross_send;
  num_sub_clients = 2;
  original_client = false;
}

reconnect_all-AreAsked_example :
    ((reconnect_all false two).0 ≡ ok tt)
    × (◌≡◌ {A = Bool} false true → reconnect_all false two ≡ (ok tt, two))
    × (◌≡◌ {A = Bool} false false → AreAsked two.clients (reconnect_all false two).1.clients)
reconnect_all-AreAsked_example =
    reconnect_all-AreAsked false two (toy_client-IsValid, (toy_client-IsValid, tt))
