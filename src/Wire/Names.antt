-- ===== src/Wire/Names.antt =====
-- The topics of the three parts.
use ironsoft.Prelude.{◌≡◌, refl, ◌∙◌, ap, [], ◌∷◌, ◌++◌, append_assoc, false, arith}
use ironsoft.Text.{Text, lit, text_eq}
use ironsoft.Topics.{make_topics}
use ironsoft.Gui.Client.State.{
  Client, topic_prefix, t_cmd, t_presence, t_status, t_heartbeat, t_ack, t_ekinox_prefix,
  t_ekinox_presence, t_ekinox_status, t_ekinox_heartbeat,
}
use ironsoft.Backend.State.{backend_topics}

-- A common prefix does not tell two texts apart, and the rest does.
pub text_eq-append_left : (p s t : Text) → text_eq (p ++ s) (p ++ t) ≡ text_eq s t
unfolding text_eq
text_eq-append_left [] s t = refl
text_eq-append_left (a ∷ p) s t = ground (arith, text_eq-append_left p s t)

-- For the same drone, the topics of the desktop client are those of the backend, and the sensor topics
-- those of the service; commands and acknowledgements are on one topic each for all three.
pub client_topics-agree :
    (c : Client)
    → let backend = backend_topics c.cfg.drone_id in
      let service = make_topics c.cfg.drone_id in
      (t_presence c ≡ backend.presence)
      × (t_status c ≡ backend.status)
      × (t_heartbeat c ≡ backend.heartbeat)
      × (t_cmd c ≡ backend.cmd)
      × (t_ack c ≡ backend.ack)
      × (t_ekinox_presence c ≡ service.presence)
      × (t_ekinox_status c ≡ service.status)
      × (t_ekinox_heartbeat c ≡ service.heartbeat)
      × (service.cmd ≡ backend.cmd)
      × (service.ack ≡ backend.ack)
unfolding topic_prefix t_ekinox_prefix backend_topics make_topics
client_topics-agree c = (refl, refl, refl, refl, refl, refl, refl, refl, refl, refl)

-- A topic below the drone's prefix, told from the sensor's.
pub ekinox_topic-differs :
    (c : Client) (s t : Text)
    → text_eq (lit "/ekinox" ++ s) t ≡ false
    → text_eq (t_ekinox_prefix c ++ s) (topic_prefix c ++ t) ≡ false
unfolding t_ekinox_prefix
ekinox_topic-differs c s t differs =
    ap (λ u. text_eq u (topic_prefix c ++ t)) (append_assoc (topic_prefix c) (lit "/ekinox") s)
    ∙ text_eq-append_left (topic_prefix c) (lit "/ekinox" ++ s) t
    ∙ differs
