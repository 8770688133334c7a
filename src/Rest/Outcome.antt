-- ===== src/Rest/Outcome.antt =====
-- What a request comes back with: success exactly on the 2xx codes, and a reason otherwise.
use mathlib.Core.Option.{some-injective}
use ironsoft.Prelude.Int.{ℤ}
use ironsoft.Prelude.{
  ℕ, ◌≤◌, ◌<◌, Bool, true, false, ◌≡◌, ◌≢◌, refl, ◌↔◌, ◌∙◌, sym, subst, Bool-cases, if◌then◌else◌,
  inl, inr, ap, [], ◌∷◌, ◌++◌, Option, none, some, arith, take,
}
use ironsoft.Text.{Text, lit, is_empty, decimal}
use ironsoft.Json.{Json, Parsed, parsed, parse_error}
use ironsoft.Rest.Enrich.{
  LoggerResult, Reading, enrich_from_json, enrich_object, read_status, read_mode, read_session,
  read_write_speed, read_state_name, fill_message, assign_recording, finish, assign, first_bool,
  with_write_speed, enrich_parsed,
}
use ironsoft.Rest.Http.{
  CurlOutcome, no_handle, failed, responded, make_preview, max_logged_body, response_result,
  perform_http_request,
}

-- The fields that reading the body as JSON leaves alone.
pub record SameOutcome (r s : LoggerResult) : Type 0 where
  pub ok : s.ok ≡ r.ok
  pub http_code : s.http_code ≡ r.http_code
  pub error_code : s.error_code ≡ r.error_code
  pub error_string : s.error_string ≡ r.error_string
  pub body : s.body ≡ r.body
  pub message : is_empty r.message ≡ false → s.message ≡ r.message

SameOutcome-trans : {r s t : LoggerResult} → SameOutcome r s → SameOutcome s t → SameOutcome r t
SameOutcome-trans a b = record {
  ok = b.ok ∙ a.ok;
  http_code = b.http_code ∙ a.http_code;
  error_code = b.error_code ∙ a.error_code;
  error_string = b.error_string ∙ a.error_string;
  body = b.body ∙ a.body;
  message = λ h. b.message (ap is_empty (a.message h) ∙ h) ∙ a.message h;
}

SameOutcome-refl : (r : LoggerResult) → SameOutcome r r
SameOutcome-refl r = record {
  ok = refl;
  http_code = refl;
  error_code = refl;
  error_string = refl;
  body = refl;
  message = λ h. refl;
}

fill_message-SameOutcome : (r : LoggerResult) → SameOutcome r (fill_message r)
unfolding fill_message
fill_message-SameOutcome r = ground arith

speed-SameOutcome :
    (r : LoggerResult) (n : ℤ)
    → SameOutcome r (record r { has_write_speed = true; write_speed = n })
speed-SameOutcome r n = ground arith

module _ {V : Type 0} (json : Json V) (root : V) where
  read_status-SameOutcome : (r : LoggerResult) → SameOutcome r (read_status json root r).result
  unfolding read_status
  read_status-SameOutcome r = ground arith

  read_mode-SameOutcome : (c : Reading) → SameOutcome c.result (read_mode json root c).result
  unfolding read_mode
  read_mode-SameOutcome c = ground arith

  read_session-SameOutcome : (c : Reading) → SameOutcome c.result (read_session json root c).result
  unfolding read_session
  read_session-SameOutcome c = ground arith

  read_state_name-SameOutcome : (r : LoggerResult) → SameOutcome r (read_state_name json root r)
  unfolding read_state_name
  read_state_name-SameOutcome r = ground arith

  assign-SameOutcome : (o : Option Bool) (r : LoggerResult) → SameOutcome r (assign o r)
  assign-SameOutcome none r = SameOutcome-refl r
  assign-SameOutcome (some b) r = ground arith

  assign_either-SameOutcome :
      (u : Bool) (a b : Option Bool) (r : LoggerResult)
      → SameOutcome r (if u then assign a r else assign b r)
  assign_either-SameOutcome true a b r = assign-SameOutcome a r
  assign_either-SameOutcome false a b r = assign-SameOutcome b r

  assign_recording-SameOutcome : (c : Reading) → SameOutcome c.result (assign_recording json root c)
  unfolding assign_recording
  assign_recording-SameOutcome c =
      assign_either-SameOutcome c.used_heuristic (some c.recording_via_heuristic)
        (first_bool json root ("recording" ∷ "isRecording" ∷ "recording_active" ∷ "active" ∷ []))
        c.result

  finish-SameOutcome :
      (c : Reading) (s : LoggerResult) → finish json root (some c) ≡ some s → SameOutcome c.result s
  unfolding finish
  finish-SameOutcome c s e = subst (SameOutcome c.result) (some-injective _ _ e) (
      SameOutcome-trans (read_state_name-SameOutcome c.result)
        (SameOutcome-trans (fill_message-SameOutcome _) (assign_recording-SameOutcome _)))

  finish_speed-SameOutcome :
      (numeric : Bool) (o : Option ℤ) (c : Reading) (s : LoggerResult)
      → finish json root (if numeric then with_write_speed c o else some c) ≡ some s
      → SameOutcome c.result s
  unfolding finish
  finish_speed-SameOutcome true none c s e = cc
  finish_speed-SameOutcome true (some n) c s e =
      SameOutcome-trans (speed-SameOutcome c.result n) (finish-SameOutcome _ s e)
  finish_speed-SameOutcome false o c s e = finish-SameOutcome c s e

  enrich_object-SameOutcome :
      (r s : LoggerResult) → enrich_object json root r ≡ some s → SameOutcome r s
  unfolding enrich_object read_write_speed
  enrich_object-SameOutcome r s e = SameOutcome-trans (read_status-SameOutcome r) (
      SameOutcome-trans (read_mode-SameOutcome _)
        (SameOutcome-trans (read_session-SameOutcome _) (finish_speed-SameOutcome _ _ _ s e)))

module _ {V : Type 0} (json : Json V) where
  enrich_from_json-SameOutcome :
      (r s : LoggerResult) → enrich_from_json json r ≡ some s → SameOutcome r s
  unfolding enrich_from_json
  enrich_from_json-SameOutcome r s e = elim (Bool-cases (is_empty r.body)) [
    | inl empty ↦ subst (SameOutcome r) (some-injective _ _ (rw empty at e)) (SameOutcome-refl r)
    | inr full ↦ by_parse (json.parse r.body) (rw full at e)
  ]
    where
      by_parse : (p : Parsed V) → enrich_parsed json p r ≡ some s → SameOutcome r s
      by_parse (parse_error t) h = subst (SameOutcome r) (some-injective _ _ h) (SameOutcome-refl r)
      by_parse (parsed root) h = elim (Bool-cases (json.is_object root)) [
        | inl object ↦ enrich_object-SameOutcome json root r s (rw object at h)
        | inr other ↦
            subst (SameOutcome r) (some-injective _ _ (rw other at h)) (SameOutcome-refl r)
      ]

-- curl brings a response with a code from 200 to 299.
abbrev pub Succeeds : CurlOutcome → Type 0
Succeeds no_handle = ⊥
Succeeds (failed rc e) = ⊥
Succeeds (responded code body) = (200 ≤ code) × (code < 300)

-- curl_easy_strerror has a text for the failure.
abbrev pub HasReason : CurlOutcome → Type 0
HasReason no_handle = Unit
HasReason (failed rc e) = e ≢ []
HasReason (responded code body) = Unit

abbrev pub Judged : CurlOutcome → LoggerResult → Type 0
Judged o s =
    ((s.ok ≡ true) ↔ Succeeds o)
    × (s.ok ≡ true → s.error_string ≡ [])
    × (s.ok ≡ false → s.error_string ≢ [])

append-ne-nil : (s t : Text) → s ≢ [] → s ++ t ≢ []
append-ne-nil [] t h = absurd (h refl)
append-ne-nil (c ∷ s) t h = λ e. cc

is_empty_sound : (t : Text) → is_empty t ≡ false → t ≢ []
unfolding is_empty
is_empty_sound [] h = cc
is_empty_sound (_ ∷ _) h = λ e. cc

response_result-Judged :
    (code : ℕ) (body : Text) → Judged (responded code body) (response_result code body)
unfolding response_result
response_result-Judged code body = ground (
  arith,
  is_empty_sound (make_preview body),
  append-ne-nil (lit "http_") (decimal code) (unfold lit in λ e. cc),
)

is_empty_append : (s t : Text) → is_empty t ≡ false → is_empty (s ++ t) ≡ false
unfolding is_empty
is_empty_append [] t h = h
is_empty_append (c ∷ s) t h = refl

make_preview_full : (body : Text) → is_empty body ≡ false → is_empty (make_preview body) ≡ false
unfolding make_preview
make_preview_full body h =
    ground
      (arith, is_empty_append (take max_logged_body body) (lit "...") (unfold is_empty lit in refl))

response_message :
    (code : ℕ) (body : Text) → (response_result code body).message ≡ make_preview body
unfolding response_result
response_message code body = ground arith

response_message_full :
    (code : ℕ) (body : Text)
    → is_empty body ≡ false
    → is_empty (response_result code body).message ≡ false
response_message_full code body h = rw response_message (make_preview_full body h)

SameOutcome-Judged :
    (o : CurlOutcome) {r s : LoggerResult} → SameOutcome r s → Judged o r → Judged o s
SameOutcome-Judged o a j = (
  (λ h. j.0.0 (sym a.ok ∙ h), λ w. a.ok ∙ j.0.1 w),
  λ h. a.error_string ∙ j.1 (sym a.ok ∙ h),
  λ h e. j.2 (sym a.ok ∙ h) (sym a.error_string ∙ e),
)

module _ {V : Type 0} (json : Json V) where
  -- Where reading the body throws nothing: a request succeeds exactly when curl brings a code from 200 to 299, and a result has an error text
  -- exactly when it failed, where curl names its own failures.
  pub perform_http_request-Judged :
      (o : CurlOutcome) (s : LoggerResult)
      → HasReason o
      → perform_http_request json o ≡ some s
      → Judged o s
  unfolding perform_http_request
  perform_http_request-Judged no_handle s h e =
      let named : lit "curl_easy_init failed" ≢ [] = unfold lit in λ p. cc in
      subst (Judged no_handle) (some-injective _ _ e)
        ((λ p. cc, λ p. absurd p), λ p. cc, λ p. named)
  perform_http_request-Judged (failed rc t) s h e =
      subst (Judged (failed rc t)) (some-injective _ _ e)
        ((λ p. cc, λ p. absurd p), λ p. cc, λ p. h)
  perform_http_request-Judged (responded code body) s h e =
      SameOutcome-Judged (responded code body) (enrich_from_json-SameOutcome json _ s e)
        (response_result-Judged code body)

  -- Where reading the body throws nothing, the message of a response with a body is the preview of that
  -- body, whatever it says as JSON.
  pub perform_http_request-message :
      (code : ℕ) (body : Text) (s : LoggerResult)
      → is_empty body ≡ false
      → perform_http_request json (responded code body) ≡ some s
      → s.message ≡ make_preview body
  unfolding perform_http_request
  perform_http_request-message code body s h e =
      (enrich_from_json-SameOutcome json _ s e).message (response_message_full code body h)
      ∙ response_message code body
