-- ===== src/Channel/Tests.antt =====
-- util.go: an emitter for two values.
use nkn_sdk_go.Base.{ℕ, ◌≡◌, refl, true, false, []}
use nkn_sdk_go.Errors.{ok}
use nkn_sdk_go.Channel.{Emitter, close}

abbrev one : Emitter ℕ
one = record { buffer = []; size = 1; closed = false; has_callback = false; called = [] }

closes : close one ≡ ok (record one { closed = true })
unfolding close
closes = refl
