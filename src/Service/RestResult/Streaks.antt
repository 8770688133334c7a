-- ===== src/Service/RestResult/Streaks.antt =====
-- What a REST result does to the health of the API.
use ironsoft.Prelude.{
  ℕ, ◌+◌, ◌<◌, ◌≡◌, ◌∙◌, ap, subst, sym, refl, Bool, true, false, not, [], if◌then◌else◌, arith,
}
use ironsoft.Text.{Text}
use ironsoft.Rest.Enrich.{LoggerResult}
use ironsoft.Service.State.{Service, RestHealth}
use ironsoft.Service.Steps.{
  Order, Steps, Steps-pure, Steps-throw, Steps-gets, Steps-ask, Steps-bind, Steps-modify, Steps-if,
}
use ironsoft.Service.Exec.{
  Context, gets, ask, modify, skip, ◌>>=◌, publish, mono_ms, steady_now, unix_ts,
}
use ironsoft.Service.Health.{
  bump, rest_age_ms, rest_offline_condition, with_link_health, update_link_health,
}
use ironsoft.Service.Publish.{defer_presence, emit_presence, publish_presence}
use ironsoft.Service.Presence.{update_presence_state}
use ironsoft.Service.RestResult.{
  rest_success, with_success, with_failure, with_rest_alive, mark_success, mark_failure,
  mark_rest_result,
}

-- An action that leaves what is known of the API and the status as they are.
abbrev SameHealth : Service → Service → Type 0
SameHealth s t = (t.rest ≡ s.rest) × (t.status ≡ s.status)

SameHealth-Order : Order SameHealth
SameHealth-Order = record {
  refl_of = λ s. (refl, refl);
  trans_of = λ s t u f g. (g.0 ∙ f.0, g.1 ∙ f.1);
  tick_of = λ s. (refl, refl);
}

module _ {V : Type 0} (c : Context V) where
  open c use {setup, env}

  abbrev k : Order SameHealth
  k = SameHealth-Order

  update_presence_state-SameHealth :
      (now_ms : ℕ) (reason : Text) → Steps SameHealth (update_presence_state c now_ms reason)
  unfolding update_presence_state publish_presence defer_presence emit_presence mono_ms steady_now
      unix_ts publish
  update_presence_state-SameHealth now_ms reason = Steps-bind k (Steps-gets k _) λ online.
      Steps-bind k (Steps-gets k _) λ text.
        Steps-bind k (Steps-bind k (Steps-ask k _) λ now. Steps-pure k _) λ now_ms.
          Steps-bind k (Steps-gets k _) λ limited. Steps-bind k (Steps-gets k _) λ connected.
            Steps-if _ (Steps-bind k (Steps-ask k _) λ ts. Steps-modify _ λ s. (refl, refl)) (
              Steps-if _ (Steps-pure k _) (
                Steps-bind k (Steps-ask k _) λ ts.
                  Steps-bind k (Steps-modify _ λ s. (refl, refl)) λ _.
                    Steps-bind k (Steps-gets k _) λ payload.
                      Steps-bind k
                        (Steps-bind k (Steps-ask k _) λ accepted.
                          Steps-if accepted (Steps-modify _ λ s. (refl, refl)) (Steps-throw k _))
                        λ _. Steps-modify _ λ s. (refl, refl)))

  offline_of_parts :
      (now_ms : ℕ) (t u : Service)
      → u.rest ≡ t.rest
      → u.status ≡ t.status
      → rest_offline_condition setup u now_ms ≡ rest_offline_condition setup t now_ms
  unfolding rest_offline_condition rest_age_ms
  offline_of_parts now_ms t u e f = simp (e, f)

  -- What is known of the API once a call succeeded at `now_ms`.
  pub record Healthy (now_ms : ℕ) (before : RestHealth) (t : Service) : Type 0 where
    alive : t.rest.rest_alive ≡ true
    no_failure : t.rest.rest_fail_streak ≡ 0
    one_more : t.rest.rest_success_streak ≡ bump before.rest_success_streak
    no_error : t.rest.last_rest_error ≡ []
    api_ok : t.status.api_ok ≡ true
    online : rest_offline_condition setup t now_ms ≡ false

  abbrev succeeded : ℕ → ℕ → Service → Service
  succeeded now now_ms s = with_link_health setup now_ms (with_success now now_ms s)

  succeeded-Healthy :
      (now now_ms : ℕ) (s : Service) → 0 < now_ms → Healthy now_ms s.rest (succeeded now now_ms s)
  unfolding with_success with_link_health rest_offline_condition rest_age_ms
  succeeded-Healthy now now_ms s pos = ground arith

  Healthy-SameHealth :
      (now_ms : ℕ) (s t u : Service)
      → Healthy now_ms s.rest t
      → SameHealth t u
      → Healthy now_ms s.rest u
  Healthy-SameHealth now_ms s t u h e = record {
    alive = ap (λ x. x.rest_alive) e.0 ∙ h.alive;
    no_failure = ap (λ x. x.rest_fail_streak) e.0 ∙ h.no_failure;
    one_more = ap (λ x. x.rest_success_streak) e.0 ∙ h.one_more;
    no_error = ap (λ x. x.last_rest_error) e.0 ∙ h.no_error;
    api_ok = ap (λ x. x.api_ok) e.1 ∙ h.api_ok;
    online = offline_of_parts now_ms t u e.0 e.1 ∙ h.online;
  }

  mark_success-Healthy :
      (now now_ms : ℕ) (s : Service)
      → 0 < now_ms
      → Healthy now_ms s.rest (mark_success c now now_ms s).1
  unfolding mark_success update_link_health modify ◌>>=◌
  mark_success-Healthy now now_ms s pos =
      Healthy-SameHealth now_ms s (succeeded now now_ms s) _ (succeeded-Healthy now now_ms s pos)
        ((update_presence_state-SameHealth now_ms []).at (succeeded now now_ms s))

  -- A 2xx result makes the API healthy, whatever it was before: no failure is counted, its error is
  -- gone, one more success is counted, and the status says so. The clock must not show 0, which stands for no success.
  pub mark_rest_result-Healthy :
      (r : LoggerResult) (reason : Text) (now_ms : ℕ) (s : Service)
      → rest_success r ≡ true
      → 0 < now_ms
      → Healthy now_ms s.rest (mark_rest_result c r reason now_ms s).1
  unfolding mark_rest_result steady_now ask ◌>>=◌
  mark_rest_result-Healthy r reason now_ms s ok pos =
      subst
        (λ b.
          Healthy now_ms s.rest
            ((if b
                then mark_success c (env.steady_ns s.tick) now_ms
                else mark_failure c r reason now_ms)
              (record s { tick = s.tick + 1 })).1)
        (sym ok)
        (mark_success-Healthy (env.steady_ns s.tick) now_ms (record s { tick = s.tick + 1 }) pos)

  -- What is known of the API once a call failed at `now_ms`.
  pub record Failing (now_ms : ℕ) (before : RestHealth) (t : Service) : Type 0 where
    pub one_more : t.rest.rest_fail_streak ≡ bump before.rest_fail_streak
    pub no_success : t.rest.rest_success_streak ≡ 0
    pub alive : t.rest.rest_alive ≡ not (rest_offline_condition setup t now_ms)
    pub api_ok : t.status.api_ok ≡ not (rest_offline_condition setup t now_ms)

  abbrev failed : LoggerResult → Text → ℕ → Service → Service
  failed r reason now_ms s =
      let t = with_failure r reason s in
      with_link_health setup now_ms
        (with_rest_alive (not (rest_offline_condition setup t now_ms)) t)

  failed-Failing :
      (r : LoggerResult) (reason : Text) (now_ms : ℕ) (s : Service)
      → Failing now_ms s.rest (failed r reason now_ms s)
  unfolding with_failure with_rest_alive with_link_health rest_offline_condition rest_age_ms
  failed-Failing r reason now_ms s = record {
    one_more = refl;
    no_success = refl;
    alive = refl;
    api_ok = refl;
  }

  Failing-SameHealth :
      (now_ms : ℕ) (s t u : Service)
      → Failing now_ms s.rest t
      → SameHealth t u
      → Failing now_ms s.rest u
  Failing-SameHealth now_ms s t u h e =
      let same = ap not (sym (offline_of_parts now_ms t u e.0 e.1)) in
      record {
        one_more = ap (λ x. x.rest_fail_streak) e.0 ∙ h.one_more;
        no_success = ap (λ x. x.rest_success_streak) e.0 ∙ h.no_success;
        alive = ap (λ x. x.rest_alive) e.0 ∙ (h.alive ∙ same);
        api_ok = ap (λ x. x.api_ok) e.1 ∙ (h.api_ok ∙ same);
      }

  announce_if-SameHealth :
      (offline : Bool) (now_ms : ℕ)
      → Steps SameHealth (if offline then update_presence_state c now_ms [] else skip)
  announce_if-SameHealth offline now_ms =
      Steps-if offline (update_presence_state-SameHealth now_ms []) (Steps-pure k _)

  mark_failure-Failing :
      (r : LoggerResult) (reason : Text) (now_ms : ℕ) (s : Service)
      → Failing now_ms s.rest (mark_failure c r reason now_ms s).1
  unfolding mark_failure update_link_health modify gets ◌>>=◌
  mark_failure-Failing r reason now_ms s =
      Failing-SameHealth now_ms s (failed r reason now_ms s) _ (failed-Failing r reason now_ms s)
        ((announce_if-SameHealth _ now_ms).at (failed r reason now_ms s))

  -- A result that is no success (not ok, or a code outside 200 to 299) counts one more failure, up to
  -- the largest int, and leaves no success; the API is alive, and the status says so, exactly where the
  -- offline rule does not hold.
  pub mark_rest_result-Failing :
      (r : LoggerResult) (reason : Text) (now_ms : ℕ) (s : Service)
      → rest_success r ≡ false
      → Failing now_ms s.rest (mark_rest_result c r reason now_ms s).1
  unfolding mark_rest_result steady_now ask ◌>>=◌
  mark_rest_result-Failing r reason now_ms s bad =
      subst
        (λ b.
          Failing now_ms s.rest
            ((if b
                then mark_success c (env.steady_ns s.tick) now_ms
                else mark_failure c r reason now_ms)
              (record s { tick = s.tick + 1 })).1)
        (sym bad) (mark_failure-Failing r reason now_ms (record s { tick = s.tick + 1 }))
