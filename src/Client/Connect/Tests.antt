-- ===== src/Client/Connect/Tests.antt =====
-- client.go: `connect` on concrete inputs. The world counts the dials; node 7 answers no dial, and the
-- others answer the third.
use nkn_sdk_go.Base.{ℕ, suc, ◌==◌, ◌≡◌, refl, true, none, ltb, ◌||◌, if◌then◌else◌}
use nkn_sdk_go.Errors.{Outcome, ok, err, connect_failed}
use nkn_sdk_go.Client.Connect.{RetryConfig, Dialing, attempt, connect_rounds}

abbrev dial : ℕ → ℕ → Outcome (Unit {0}) × ℕ
dial node w = ((if (node == 7) || ltb w 2 then err connect_failed else ok tt), suc w)

abbrev toy_dialing : Dialing ℕ ℕ
toy_dialing = record { find_node = λ w. (ok 3, w); connect_to_node = dial; sleep = λ ms w. w }

abbrev toy_config : RetryConfig
toy_config = record { min_reconnect_interval = 1000; max_reconnect_interval = 6000 }

connects : connect_rounds toy_dialing toy_config 3 true 1000 none 0 ≡ (ok tt, 3)
unfolding connect_rounds attempt
connects = refl
