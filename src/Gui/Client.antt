-- ===== src/Gui/Client.antt =====
-- gui/src/mqtt_paho_client.cpp: MqttPahoClient, with the thread of the window and the worker thread.
pub mod State
pub mod Parse
pub mod Pings
pub mod Messages
pub mod Worker
pub mod Events
pub mod Frames
pub mod Keeps
pub mod Runs
pub mod Announced
pub mod PingTimers
pub mod PingCounts
pub mod EarlyAck
pub mod Sessions
pub mod Stops
pub mod Stopping
