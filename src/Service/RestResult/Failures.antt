-- ===== src/Service/RestResult/Failures.antt =====
-- Failed results, one after another (`mark_rest_result` of services/ekinox/src/ekinox_service.cpp).
use ironsoft.Prelude.{
  ℕ, suc, ◌+◌, ◌≤◌, ◌≡◌, ◌∙◌, inl, ap, not, true, false, List, [], ◌∷◌, All, min, arith, length,
}
use ironsoft.Text.{Text}
use ironsoft.Rest.Enrich.{LoggerResult}
use ironsoft.Service.State.{Service}
use ironsoft.Service.Exec.{Context}
use ironsoft.Service.Health.{bump, int_max, rest_offline_condition}
use ironsoft.Service.Health.Offline.{rest_offline_condition_iff}
use ironsoft.Service.RestResult.{rest_success, mark_rest_result}
use ironsoft.Service.RestResult.Streaks.{mark_rest_result-Failing}

-- A result of the device, with the reason of the call and its time.
pub record Report : Type 0 where
  pub result : LoggerResult
  pub reason : Text
  pub now_ms : ℕ

abbrev pub IsFailure : Report → Type 0
IsFailure r = rest_success r.result ≡ false

bump-le : (n k : ℕ) → min (n + suc k) int_max ≤ min (bump n + k) int_max
unfolding bump
bump-le n k = ground arith

module _ {V : Type 0} (c : Context V) where
  open c use {setup}

  -- The members after a result; a throw on the way leaves what was written.
  abbrev pub marked : Report → Service → Service
  marked r s = (mark_rest_result c r.result r.reason r.now_ms s).1

  abbrev pub all_marked : List Report → Service → Service
  all_marked [] s = s
  all_marked (r ∷ rest) s = all_marked rest (marked r s)

  all_marked-streak :
      (reports : List Report) (s : Service)
      → All IsFailure reports
      → min (s.rest.rest_fail_streak + length reports) int_max
        ≤ (all_marked reports s).rest.rest_fail_streak
  all_marked-streak [] s failed = ground arith
  all_marked-streak (r ∷ rest) s failed =
      let first = mark_rest_result-Failing c r.result r.reason r.now_ms s failed.0 in
      let later = all_marked-streak rest (marked r s) failed.1 in
      let grown = bump-le s.rest.rest_fail_streak (length rest) in
      omega (arith, first.one_more, later, grown)

  -- Whatever the service was in before: after three failed results or more, with no other result in
  -- between, and whether their announcements threw or not, the API counts as offline, and the status
  -- and the member say so, no success is counted, and the failures are at least as many as these
  -- results, up to the largest int.
  pub all_marked-offline :
      (earlier : List Report) (last : Report) (s : Service)
      → All IsFailure earlier
      → IsFailure last
      → 2 ≤ length earlier
      → let t = marked last (all_marked earlier s) in
        (rest_offline_condition setup t last.now_ms ≡ true)
        × (t.status.api_ok ≡ false)
        × (t.rest.rest_alive ≡ false)
        × (t.rest.rest_success_streak ≡ 0)
        × (min (s.rest.rest_fail_streak + length earlier + 1) int_max ≤ t.rest.rest_fail_streak)
  all_marked-offline earlier last s failed last_failed enough =
      let before = all_marked earlier s in
      let ended =
        mark_rest_result-Failing c last.result last.reason last.now_ms before last_failed in
      let so_far = all_marked-streak earlier s failed in
      let grown = bump-le before.rest.rest_fail_streak 0 in
      let counted : min (s.rest.rest_fail_streak + length earlier + 1) int_max
          ≤ (marked last before).rest.rest_fail_streak =
        omega (arith, so_far, grown, ended.one_more) in
      let offline =
        (rest_offline_condition_iff setup (marked last before) last.now_ms).1
          (inl (omega (arith, counted, enough))) in
      (
        offline,
        ended.api_ok ∙ ap not offline,
        ended.alive ∙ ap not offline,
        ended.no_success,
        counted,
      )
