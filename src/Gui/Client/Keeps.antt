-- ===== src/Gui/Client/Keeps.antt =====
-- What every change of a member keeps, the steps of the worker keep.
use ironsoft.Prelude.{ℕ, Bool, true, false}
use ironsoft.Gui.Json.{QJson}
use ironsoft.Gui.Status.{ConnectionState}
use ironsoft.Gui.Client.State.{
  Client, Worker, no_worker, finished, terminated, consuming, at_head, opening, subscribing,
  to_presence, starting, waiting, set_connected, set_presence, set_client_state,
}
use ironsoft.Gui.Client.Messages.{Incoming, handle_message}
use ironsoft.Gui.Client.Frames.{either_way}
use ironsoft.Gui.Client.Worker.{
  Answer, succeeds, fails, delivers, is_failure, is_joinable, work, work_from, consume, finish_loop,
  after_session, after_subscription, end_session, next_message, connect_to_broker,
}

-- A property that the setters keep, and that says nothing of the place of the worker, holds after a
-- connection is asked for.
module _ (P : Client → Type 0)
    (on_connected : (v : Bool) (s : Client) → P s → P (set_connected v s))
    (on_presence : (v : Bool) (s : Client) → P s → P (set_presence v s))
    (on_state : (v : ConnectionState) (s : Client) → P s → P (set_client_state v s))
    (on_place : (w : Worker) (s : Client) → P s → P (record s { worker = w }))
    (on_stop : (v : Bool) (s : Client) → P s → P (record s { stop = v })) where
  pub connect_to_broker-keeps : (s : Client) → P s → P (connect_to_broker s)
  unfolding connect_to_broker
  connect_to_broker-keeps s p =
      either_way P (is_joinable s.worker) p
        (on_place _ _ (on_state _ _ (on_presence _ _ (on_connected _ _ (on_stop false s p)))))

-- A property that the setters and the handler of messages keep, and that says nothing of the place of the worker.
module _ {V : Type 0} (json : QJson V) (P : Client → Type 0)
    (on_connected : (v : Bool) (s : Client) → P s → P (set_connected v s))
    (on_presence : (v : Bool) (s : Client) → P s → P (set_presence v s))
    (on_state : (v : ConnectionState) (s : Client) → P s → P (set_client_state v s))
    (on_place : (w : Worker) (s : Client) → P s → P (record s { worker = w }))
    (on_client : (v : Bool) (s : Client) → P s → P (record s { has_client = v }))
    (on_message : (m : Incoming) (s : Client) → P s → P (handle_message json m s)) where
  finish_loop-keeps : (s : Client) → P s → P (finish_loop s)
  unfolding finish_loop
  finish_loop-keeps s p =
      on_state _ _ (on_place _ _ (on_client false _ (on_presence false _ (on_connected false s p))))

  end_session-keeps : (b : ℕ) (s : Client) → P s → P (end_session b s)
  unfolding end_session after_session
  end_session-keeps b s p =
      let ended = on_presence false _ (on_connected false s p) in
      either_way P _ (finish_loop-keeps _ ended)
        (on_place (waiting b) _ (on_state ConnectionState.disconnected _ ended))

  next_message-keeps : (s : Client) → P s → P (next_message s)
  unfolding next_message
  next_message-keeps s p = either_way P _ (end_session-keeps _ s p) (on_place consuming s p)

  work_from-keeps : (w : Worker) (a : Answer) (s : Client) → P s → P (work_from json w a s)
  unfolding work_from consume
  work_from-keeps no_worker a s p = p
  work_from-keeps finished a s p = p
  work_from-keeps terminated a s p = p
  work_from-keeps (at_head b) a s p = either_way P s.stop (finish_loop-keeps s p) (
      either_way P (is_failure a) (on_place terminated s p)
        (on_place (opening b) _ (on_state ConnectionState.connecting _ (on_client true s p))))
  work_from-keeps (opening b) a s p = either_way P (is_failure a) (end_session-keeps b s p) (
      on_place (subscribing b to_presence) _
        (on_state ConnectionState.connected _ (on_connected true s p)))
  work_from-keeps (subscribing b channel) a s p =
      either_way P (is_failure a) (end_session-keeps b s p)
        (on_place (after_subscription b channel) s p)
  work_from-keeps (starting b) a s p =
      either_way P (is_failure a) (end_session-keeps b s p) (next_message-keeps s p)
  work_from-keeps consuming (delivers m) s p = next_message-keeps _ (on_message m s p)
  work_from-keeps consuming succeeds s p = end_session-keeps _ s p
  work_from-keeps consuming fails s p = end_session-keeps _ s p
  work_from-keeps (waiting b) a s p = either_way P s.stop (finish_loop-keeps s p) (on_place _ s p)

  pub work-keeps : (a : Answer) (s : Client) → P s → P (work json a s)
  unfolding work
  work-keeps a s p = work_from-keeps s.worker a s p
