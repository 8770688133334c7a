-- ===== src/Types/RoundTrip.antt =====
-- The names of the states and of the commands, printed and read back.
use ironsoft.Prelude.{◌≡◌, refl, ◌↔◌, ◌⊎◌, inl, inr, true, arith, subst, sym}
use ironsoft.Text.{Text, lit, text_eq, text_eq_sound}
use ironsoft.Types.{
  ServiceState, connecting, CommandType, ping, logger_start, logger_stop, logger_status, unknown,
  state_to_string, try_parse_state, command_to_string, try_parse_command_type,
}

print_then_parse : (s : ServiceState) → try_parse_state (state_to_string s) ≡ (s, true)
unfolding try_parse_state state_to_string lit text_eq
print_then_parse connecting = refl
print_then_parse _ = refl

parsed_name :
    (text : Text) (s : ServiceState) → try_parse_state text ≡ (s, true) → text ≡ state_to_string s
unfolding try_parse_state state_to_string
parsed_name text s h = ground (
  arith,
  text_eq_sound text (lit "DISCONNECTED"),
  text_eq_sound text (lit "CONNECTING"),
  text_eq_sound text (lit "IDLE"),
  text_eq_sound text (lit "STARTING"),
  text_eq_sound text (lit "RECORDING"),
  text_eq_sound text (lit "STOPPING"),
  text_eq_sound text (lit "ERROR"),
)

-- `try_parse_state` accepts a text as a state exactly when the text is the name that `to_string`
-- prints for that state.
pub try_parse_state_iff :
    (text : Text) (s : ServiceState)
    → (try_parse_state text ≡ (s, true)) ↔ (text ≡ state_to_string s)
try_parse_state_iff text s = (
  parsed_name text s,
  λ e. subst (λ t. try_parse_state t ≡ (s, true)) (sym e) (print_then_parse s),
)

-- The names on the wire that stand for a command; the session names are aliases.
abbrev pub Names : CommandType → Text → Type 0
Names ping text = text ≡ lit "ping"
Names logger_start text = (text ≡ lit "logger.start") ⊎ (text ≡ lit "session.start")
Names logger_stop text = (text ≡ lit "logger.stop") ⊎ (text ≡ lit "session.stop")
Names logger_status text = (text ≡ lit "logger.status") ⊎ (text ≡ lit "session.status")
Names unknown text = ⊥

named_command :
    (text : Text) (c : CommandType) → Names c text → try_parse_command_type text ≡ (c, true)
unfolding try_parse_command_type lit text_eq
named_command text ping e = rw e
named_command text logger_start (inl e) = rw e
named_command text logger_start (inr e) = rw e
named_command text logger_stop (inl e) = rw e
named_command text logger_stop (inr e) = rw e
named_command text logger_status (inl e) = rw e
named_command text logger_status (inr e) = rw e
named_command text unknown e = absurd e

parsed_command :
    (text : Text) (c : CommandType) → try_parse_command_type text ≡ (c, true) → Names c text
unfolding try_parse_command_type
parsed_command text ping h = ground (arith, text_eq_sound text (lit "ping"))
parsed_command text logger_start h =
    ground
      (arith, text_eq_sound text (lit "logger.start"), text_eq_sound text (lit "session.start"))
parsed_command text logger_stop h =
    ground (arith, text_eq_sound text (lit "logger.stop"), text_eq_sound text (lit "session.stop"))
parsed_command text logger_status h =
    ground
      (arith, text_eq_sound text (lit "logger.status"), text_eq_sound text (lit "session.status"))
parsed_command text unknown h = ground arith

-- `try_parse_command_type` accepts a text as a command exactly when the text is one of the names of
-- that command: its own, or its `session.` alias.
pub try_parse_command_type_iff :
    (text : Text) (c : CommandType) → (try_parse_command_type text ≡ (c, true)) ↔ Names c text
try_parse_command_type_iff text c = (parsed_command text c, named_command text c)

-- `unknown` alone is printed with another command's name.
command_to_string_unknown : try_parse_command_type (command_to_string unknown) ≡ (ping, true)
unfolding command_to_string try_parse_command_type lit text_eq
command_to_string_unknown = refl
