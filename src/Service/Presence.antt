-- ===== src/Service/Presence.antt =====
-- `update_presence_state` of services/ekinox/src/ekinox_service.cpp.
pub mod Rules
use ironsoft.Prelude.{ℕ, Bool, true, false, ◌&&◌, ◌||◌, not, leb, if◌then◌else◌}
use ironsoft.Text.{Text, lit, is_empty}
use ironsoft.Service.State.{Service, Setup}
use ironsoft.Service.Exec.{Context, Action, gets, ◌>>=◌}
use ironsoft.Service.Health.{rest_offline_condition}
use ironsoft.Service.Publish.{publish_presence}

unfoldable pub should_online : Setup → ℕ → Service → Bool
should_online setup now_ms s =
    s.link.connected
    && (not (rest_offline_condition setup s now_ms)
        && (leb 2 s.rest.rest_success_streak || s.link.presence_online))

unfoldable pub presence_reason : Setup → ℕ → Text → Service → Text
presence_reason setup now_ms reason_override s =
    if not (should_online setup now_ms s) && is_empty reason_override
    then (if not s.link.connected
        then lit "mqtt offline"
        else if rest_offline_condition setup s now_ms
        then (if is_empty s.rest.last_rest_error
            then lit "rest timeout"
            else s.rest.last_rest_error)
        else lit "rest hysteresis")
    else reason_override

module _ {V : Type 0} (c : Context V) where
  open c use {setup}

  unfoldable pub update_presence_state : ℕ → Text → Action
  update_presence_state now_ms reason_override = do
    online ← gets (should_online setup now_ms)
    reason ← gets (presence_reason setup now_ms reason_override)
    publish_presence c online reason
