-- ===== src/Lib.antt =====
-- The programs around a drone and its MQTT broker. The ekinox service (services/ekinox) is a gateway
-- between an Ekinox logger, which has a REST API and sends data over UDP, and the broker. It takes
-- commands from the broker (ping, start and stop of the logger, its status), carries them out over
-- REST and answers each with an acknowledgement. It polls the device, watches the UDP link, and publishes presence, status and heartbeats. The backend
-- (backend) answers pings and publishes heartbeats. The desktop client (gui) shows what both publish,
-- and sends the commands.
--
-- Where the parts stand:
-- - Text, Text/Sanitize: texts as lists of bytes, and `sanitize_and_clip` of
--   services/ekinox/src/ekinox_service.cpp.
-- - Types, Topics: services/ekinox/include/ironsoft/ekinox/ekinox_types.h and ekinox_topics.h.
-- - Json: what the program uses of jsoncpp, as a record of functions.
-- - Config: services/ekinox/src/ekinox_config.cpp.
-- - Rest/Path, Enrich, Http, Api: services/ekinox/src/ekinox_logger_api.cpp. Rest/Slashes, Reports and
--   Outcome are about them.
-- - Udp: services/ekinox/src/ekinox_udp_session.cpp.
-- - Service/State, Exec, Health, Publish, Presence, RestResult, Sensor, Commands, Loop:
--   services/ekinox/src/ekinox_service.cpp and ekinox_state.cpp. A method is an action: it takes the
--   members to an outcome (it returned, or threw an exception of the MQTT client or of jsoncpp) and
--   to the members as they are then. A guard with an early return is an if-then-else; what a method
--   calls, its action calls in the same order.
-- - Service/Steps and Service/Yields: rules for what every run of an action does to the members.
-- - Service/Invariant: what holds between any two calls. Service/Quiet and Service/Answers: what is
--   sent as an acknowledgement. The modules below Health, Loop, Presence, RestResult, Sensor and
--   State are about the module that they stand under.
-- - Gui/Json, Status, Config: what the desktop client uses of Qt's JSON classes, its states, and its
--   configuration (gui/src/mqtt_paho_client.h and .cpp).
-- - Gui/Client/State, Parse, Pings, Messages, Worker: MqttPahoClient of gui/src/mqtt_paho_client.cpp;
--   a method is a function of the members, and the worker's loop is cut where it calls the MQTT
--   client or waits. Gui/Client/Events: the two threads as a sequence of events. Frames, Keeps and
--   Runs: rules for what a message, a step of the worker and a sequence of events keep. Announced,
--   Sessions, PingTimers, PingCounts, Stops, Stopping and EarlyAck are about sequences of events.
-- - Gui/Window/State, Slots, Clicks: MainWindow of gui/src/mainwindow.cpp, a record of its members and
--   of what its slots write to the widgets. View, Refines and Follows: what it shows.
-- - Backend/Json, State, Commands, Session: backend/src/main.cpp, backend/src/mqtt_client.cpp and
--   backend/include/ironsoft. Backend/Losses and Numbers are about them.
-- - Mqtt, and the module Options of Service, Backend and Gui: how the programs set their MQTT clients up.
-- - Programs: main of services/ekinox/src/main.cpp, config_dump_main.cpp and backend/src/main.cpp.
--   Programs/Same is about the first two.
-- - Wire: what one program sends, and another one reads.
-- - Tests: runs at concrete inputs.
--
-- The clocks, curl, the Paho client and sbgECom are no part of the repository. They are the record
-- `Env` of functions that give the outcome of each call by its number, so a statement for every
-- environment covers every sequence of outcomes. What was sent is a list of messages, newest first,
-- and a payload is the list of the members that the program assigns. jsoncpp is the record `Json`; for
-- the backend, which does not test the types first, it is `CheckedJson`, whose accessors may throw.
-- Qt's JSON reader is the record `QJson`. In the desktop client and the backend, what the MQTT client
-- answers, the clocks and fresh ids are arguments of the steps; a theorem for every sequence of events
-- covers every sequence of answers.
--
-- Numbers are natural numbers where the program stores none that is negative. The streaks stop at the
-- largest int, as in the source; the ports are cut to 16 bits by the constructor, and the number of the
-- backend's heartbeats wraps around at 32 bits. Where the doubled backoff would overflow int, C++ gives
-- the program no meaning, and the model takes the limit. A time point counts
-- nanoseconds of the steady clock. `run` takes the number of rounds after which the stop flag is
-- seen, which is the only bound on a loop; every other function is structural, and `decimal` has
-- one step of fuel more than the number, which has fewer digits. The connect loop of the backend takes
-- as many rounds as there are attempts in its list.
--
-- Not modelled: gui/src/main.cpp, which only starts Qt, log lines and what is printed, the style sheet of
-- the window, the options given to curl, the joins of the backend's threads, and the threads below the
-- steps: in the service, the callbacks of the MQTT client are steps between two rounds of the loop; in the desktop client, a step of the worker runs from one
-- call of the MQTT client to the next, the seven subscriptions one by one, and a ping is published,
-- registered and shown in three steps. Races within a step are left out.
mod Prelude
pub mod Text
pub mod Types
pub mod Topics
pub mod Json
pub mod Mqtt
pub mod Config
pub mod Rest
pub mod Udp
pub mod Service
pub mod Gui
pub mod Programs
pub mod Backend
pub mod Wire
pub mod Tests
