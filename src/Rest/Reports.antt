-- ===== src/Rest/Reports.antt =====
-- What the REST client concludes about recording, against an independent description.
use mathlib.Core.Option.{some-injective}
use ironsoft.Prelude.{
  Bool, subst, ◌∙◌, true, false, ◌&&◌, ◌||◌, not, Option, none, some, [], ◌∷◌, if◌then◌else◌, ◌≡◌,
  arith, refl,
}
use ironsoft.Prelude.Int.{ℤ, pos, ltb_ℤ}
use ironsoft.Text.{lit, text_eq, is_empty}
use ironsoft.Json.{Json}
use ironsoft.Rest.Enrich.{
  LoggerResult, Reading, enrich_object, read_status, read_mode, read_session, read_write_speed,
  read_state_name, fill_message, assign_recording, first_bool, assign, finish, with_write_speed,
}

module _ {V : Type 0} (json : Json V) (root : V) where
  open json use {is_string, is_numeric, as_string, as_int, member}

  -- A session has a name and the status is not "ready".
  abbrev session_runs : Bool
  session_runs =
      is_string (member root "sessionName")
      && (not (is_empty (as_string (member root "sessionName")))
          && not (
              is_string (member root "status")
              && text_eq (as_string (member root "status")) (lit "ready")))

  -- The status is "recording".
  abbrev status_records : Bool
  status_records =
      is_string (member root "status")
      && text_eq (as_string (member root "status")) (lit "recording")

  -- What the object says, where data is written at `speed` (`none`: no such number).
  abbrev pub reported : Option ℤ → Option Bool
  reported (some speed) = some (ltb_ℤ (pos 0) speed || (session_runs || status_records))
  reported none =
      if is_string (member root "status") || session_runs
      then some (session_runs || status_records)
      else first_bool json root ("recording" ∷ "isRecording" ∷ "recording_active" ∷ "active" ∷ [])

  abbrev pub flag : LoggerResult → Option Bool
  flag r = if r.has_recording_flag then some r.recording_active else none

  flag-fill_message : (r : LoggerResult) → flag (fill_message r) ≡ flag r
  unfolding fill_message
  flag-fill_message r = ground arith

  empty_not_ready : text_eq [] (lit "ready") ≡ false
  unfolding lit text_eq
  empty_not_ready = refl

  -- The number of `writeSpeed`; `none` where it is no number, or where asInt throws.
  abbrev pub speed : Option ℤ
  speed = if is_numeric (member root "writeSpeed") then as_int (member root "writeSpeed") else none

  -- The reading after the three texts.
  abbrev texts_read : LoggerResult → Reading
  texts_read r = read_session json root (read_mode json root (read_status json root r))

  module _ (r : LoggerResult) (no_status : r.status_value ≡ []) where
    session_runs-shape :
        (not (is_empty (as_string (member root "sessionName")))
          && not (
              text_eq
                (if is_string (member root "status") then as_string (member root "status") else [])
                (lit "ready")))
        ≡ (not (is_empty (as_string (member root "sessionName")))
            && not (
                is_string (member root "status")
                && text_eq (as_string (member root "status")) (lit "ready")))
    session_runs-shape = ground (arith, empty_not_ready)

    texts_read-status :
        (read_mode json root (read_status json root r)).result.status_value
        ≡ (if is_string (member root "status") then as_string (member root "status") else [])
    unfolding read_mode read_status
    texts_read-status = ground arith

    texts_read-used :
        (texts_read r).used_heuristic ≡ (is_string (member root "status") || session_runs)
    unfolding read_session
    texts_read-used =
        rw texts_read-status (rw session_runs-shape (unfold read_mode read_status in ground arith))

    texts_read-recording : (texts_read r).recording_via_heuristic ≡ (session_runs || status_records)
    unfolding read_session
    texts_read-recording =
        rw texts_read-status (rw session_runs-shape (unfold read_mode read_status in ground arith))

    texts_read-flag : (texts_read r).result.has_recording_flag ≡ r.has_recording_flag
    unfolding read_session read_mode read_status
    texts_read-flag = ground arith

  abbrev any_bool : Option Bool
  any_bool = first_bool json root ("recording" ∷ "isRecording" ∷ "recording_active" ∷ "active" ∷ [])

  flag-assign :
      (o : Option Bool) (r : LoggerResult) → r.has_recording_flag ≡ false → flag (assign o r) ≡ o
  flag-assign none r h = rw h
  flag-assign (some b) r h = refl

  filled :
      (r : LoggerResult)
      → (fill_message (read_state_name json root r)).has_recording_flag ≡ r.has_recording_flag
  unfolding fill_message read_state_name
  filled r = ground arith

  flag-assign_recording :
      (c : Reading)
      → c.result.has_recording_flag ≡ false
      → flag (assign_recording json root c)
        ≡ (if c.used_heuristic then some c.recording_via_heuristic else any_bool)
  unfolding assign_recording
  flag-assign_recording c h = ground (arith, flag-assign any_bool c.result h)

  abbrev described : Reading → Option ℤ → Option Bool
  described c (some n) = some (ltb_ℤ (pos 0) n || c.recording_via_heuristic)
  described c none = if c.used_heuristic then some c.recording_via_heuristic else any_bool

  finish_reported :
      (numeric : Bool) (o : Option ℤ) (c : Reading) (r' : LoggerResult)
      → c.result.has_recording_flag ≡ false
      → finish json root (if numeric then with_write_speed c o else some c) ≡ some r'
      → flag r' ≡ described c (if numeric then o else none)
  unfolding finish
  finish_reported true none c r' h e = cc
  finish_reported true (some n) c r' h e =
      subst (λ x. flag x ≡ described c (some n)) (some-injective _ _ e)
        (flag-assign_recording _ (filled _ ∙ h))
  finish_reported false o c r' h e =
      subst (λ x. flag x ≡ described c none) (some-injective _ _ e)
        (flag-assign_recording _ (filled _ ∙ h))

  speed_agrees :
      (c : Reading)
      → c.used_heuristic ≡ (is_string (member root "status") || session_runs)
      → c.recording_via_heuristic ≡ (session_runs || status_records)
      → (o : Option ℤ) → described c o ≡ reported o
  speed_agrees c u v none = rw (u, v)
  speed_agrees c u v (some n) = rw v

  -- For every object: where asInt does not throw, a result that had no recording flag and no status
  -- comes out with exactly the flag of the description `reported`.
  pub enrich_object-reported :
      (r r' : LoggerResult)
      → r.has_recording_flag ≡ false
      → r.status_value ≡ []
      → enrich_object json root r ≡ some r'
      → flag r' ≡ reported speed
  unfolding enrich_object read_write_speed
  enrich_object-reported r r' h k e =
      finish_reported _ _ (texts_read r) r' (texts_read-flag r k ∙ h) e
      ∙ speed_agrees (texts_read r) (texts_read-used r k) (texts_read-recording r k) speed
