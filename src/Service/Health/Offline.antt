-- ===== src/Service/Health/Offline.antt =====
-- When the REST API counts as offline.
use ironsoft.Prelude.{ℕ, ◌+◌, ◌*◌, ◌≤◌, ◌<◌, ◌≡◌, ◌⊎◌, ◌↔◌, true, if◌then◌else◌, arith}
use ironsoft.Service.State.{Service, Setup}
use ironsoft.Service.Health.{rest_age_ms, rest_offline_condition}

-- How long a success counts: three times as long while recording.
abbrev pub allowance : Setup → Service → ℕ
allowance setup s =
    if s.status.recording_active then setup.presence_timeout * 3 else setup.presence_timeout

-- Three failures in a row, no success yet, or one that is too long ago.
abbrev pub Offline : Setup → Service → ℕ → Type 0
Offline setup s now_ms =
    (3 ≤ s.rest.rest_fail_streak)
    ⊎ ((s.rest.last_rest_ok_ts_ms ≡ 0) ⊎ (s.rest.last_rest_ok_ts_ms + allowance setup s < now_ms))

decision_sound :
    (setup : Setup) (s : Service) (now_ms : ℕ)
    → rest_offline_condition setup s now_ms ≡ true
    → Offline setup s now_ms
unfolding rest_offline_condition rest_age_ms
decision_sound setup s now_ms h = ground arith

decision_complete :
    (setup : Setup) (s : Service) (now_ms : ℕ)
    → Offline setup s now_ms
    → rest_offline_condition setup s now_ms ≡ true
unfolding rest_offline_condition rest_age_ms
decision_complete setup s now_ms h = ground arith

-- The API counts as offline exactly after three failures in a row, before the first success, and when
-- the last success is longer ago than the presence timeout, or three times that while recording.
pub rest_offline_condition_iff :
    (setup : Setup) (s : Service) (now_ms : ℕ)
    → (rest_offline_condition setup s now_ms ≡ true) ↔ Offline setup s now_ms
rest_offline_condition_iff setup s now_ms =
    (decision_sound setup s now_ms, decision_complete setup s now_ms)

-- Without a new result the API does not come back: offline at one time is offline at any later one.
rest_offline_condition-monotone :
    (setup : Setup) (s : Service) (now_ms later_ms : ℕ)
    → now_ms ≤ later_ms
    → rest_offline_condition setup s now_ms ≡ true
    → rest_offline_condition setup s later_ms ≡ true
rest_offline_condition-monotone setup s now_ms later_ms le h =
    let now_offline = decision_sound setup s now_ms h in
    decision_complete setup s later_ms (ground arith)
