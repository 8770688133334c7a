-- ===== src/Service/Answers/Queue.antt =====
-- The answers to the commands that wait.
use ironsoft.Prelude.{ℕ, ◌≡◌, refl, true, List, [], ◌∷◌, ◌++◌, map, ap}
use ironsoft.Text.{Text}
use ironsoft.Topics.{make_topics}
use ironsoft.Service.State.{Service, Message, CommandMessage}
use ironsoft.Service.Exec.{Context, Outcome, done, thrown, continue, gets, modify, pure, ◌>>=◌}
use ironsoft.Service.Quiet.{sent_on}
use ironsoft.Service.Commands.{handle_command_message, handle_all, drain_commands}
use ironsoft.Service.Answers.{Answered, Answering}
use ironsoft.Service.Answers.Commands.{named, handle_command_message-answers}

-- One acknowledgement for each pair of a type and an id, the first pair's first, and no other.
abbrev pub AllAnswered : Text → List (Text × Text) → List Message → List Message → Type 0
AllAnswered topic [] before after = sent_on topic after ≡ sent_on topic before
AllAnswered topic ((type, id) ∷ rest) before after =
    (middle : List Message) × Answered topic type id before middle
    × AllAnswered topic rest middle after

-- Where the handlers of all commands returned, all are answered, and the connection is there; where
-- one threw, those in front of it are.
abbrev pub Served : Text → List (Text × Text) → List Message → Outcome (Unit {0}) × Service → Type 0
Served topic names before (done a, t) =
    AllAnswered topic names before t.sent × (t.link.connected ≡ true)
Served topic names before (thrown f, t) =
    (served : List (Text × Text)) × (unserved : List (Text × Text)) × (served ++ unserved ≡ names)
    × AllAnswered topic served before t.sent

module _ (topic type id : Text) (before : List Message) where
  Served-cons :
      (names : List (Text × Text)) (middle : List Message) (r : Outcome (Unit {0}) × Service)
      → Answered topic type id before middle
      → Served topic names middle r
      → Served topic ((type, id) ∷ names) before r
  Served-cons names middle (done a, t) answered served = ((middle, answered, served.0), served.1)
  Served-cons names middle (thrown f, t) answered (served, unserved, whole, all) =
      ((type, id) ∷ served, unserved, ap (λ l. (type, id) ∷ l) whole, (middle, answered, all))

module _ {V : Type 0} (c : Context V) where
  open c use {setup, json, env}

  abbrev pub names_of : List CommandMessage → List (Text × Text)
  names_of = map λ m. named c (json.parse m.payload)

  module _ (drone_id : Text) (e : setup.topics ≡ make_topics drone_id)
      (up : (n : ℕ) → env.publishes n ≡ true) where
    abbrev topic : Text
    topic = (make_topics drone_id).ack

    after_one :
        (type id : Text) (rest : List CommandMessage) (s : Service)
        (r : Outcome (Unit {0}) × Service)
        → ((t : Service)
            → t.link.connected ≡ true
            → Served topic (names_of rest) t.sent (handle_all c rest t))
        → Answering topic type id s r
        → Served topic
            ((type, id) ∷ names_of rest)
            s.sent
            (continue r.0 (λ _. handle_all c rest) r.1)
    after_one type id rest s (done a, t) others (answered, connected) =
        Served-cons topic type id s.sent _ t.sent _ answered (others t connected)
    after_one type id rest s (thrown f, t) others same =
        ([], (type, id) ∷ names_of rest, refl, same)

    handle_all-Served :
        (ms : List CommandMessage) (s : Service)
        → s.link.connected ≡ true
        → Served topic (names_of ms) s.sent (handle_all c ms s)
    unfolding handle_all pure ◌>>=◌
    handle_all-Served [] s connected = (refl, connected)
    handle_all-Served (m ∷ rest) s connected =
        after_one _ _ rest s (handle_command_message c m s) (handle_all-Served rest)
          (handle_command_message-answers c drone_id e up m s connected)

    -- Where the MQTT client accepts every message and the topics are a drone's, the commands that wait
    -- while the service is connected are answered on the topic of the acknowledgements, once each, with
    -- their types and ids, and in the order of their arrival; if handling one of them throws, those in
    -- front of it are answered so, and no other is.
    pub drain_commands-Served :
        (s : Service)
        → s.link.connected ≡ true
        → Served topic (names_of s.pending_commands) s.sent (drain_commands c s)
    unfolding drain_commands gets modify ◌>>=◌
    drain_commands-Served s connected =
        handle_all-Served s.pending_commands (record s { pending_commands = [] }) connected
