-- ===== src/Slave/Stale.antt =====
-- An event that a slave of src/slave.cpp was notified of stays for the sessions that follow: the
-- events are cleared in the state init alone.
use libhdcp.Base.{
  ℕ, ◌≡◌, ◌≢◌, refl, ◌∙◌, List, [], ◌∷◌, ◌++◌, Bool, true, some, Result, ok, err, get_elem?, arith,
}
use libhdcp.Base.State.{Preserves}
use libhdcp.Interfaces.{Thread, TimeoutQueue, EventMngr, Transport}
use libhdcp.Packet.Format.{Block, BlockView}
use libhdcp.Slave.Manager.{Timer}
use libhdcp.Slave.Manager
use libhdcp.Slave.Machine.{
  State, connecting, connected, Event, hip_received, first_ka_received, ka_timeout_event,
  Transition, stay_curr_state, goto_next_state, Method, handler_state_init,
  handler_state_disconnected, handler_state_connecting, handler_state_connected, check_true,
  check_hip_received, check_connected, check_ka_timeout, check_transport_closed, table,
}
use libhdcp.Slave.Machine
use libhdcp.Slave.Engine
use libhdcp.Slave.Handlers

module _ (H : Thread) (Q : TimeoutQueue Timer) (V : EventMngr Event) (X : Transport) where
  abbrev Slave : Type 0
  Slave = Machine.Slave H Q V X

  -- A keep-alive was received that no check has seen.
  abbrev pub Awaits : Slave → Type 0
  Awaits s = V.contains first_ka_received s.events ≡ true

  notify-Awaits :
      (e : Event) (s : V.Events)
      → V.contains first_ka_received s ≡ true
      → V.contains first_ka_received (V.notify e s) ≡ true
  notify-Awaits first_ka_received s h = V.contains-notify first_ka_received s
  notify-Awaits hip_received s h =
      V.contains-notify_other hip_received first_ka_received s (λ e. cc) ∙ h
  notify-Awaits ka_timeout_event s h =
      V.contains-notify_other ka_timeout_event first_ka_received s (λ e. cc) ∙ h

  erase-Awaits :
      (e : Event) (s : V.Events)
      → first_ka_received ≢ e
      → V.contains first_ka_received s ≡ true
      → V.contains first_ka_received (V.erase e s).1 ≡ true
  erase-Awaits e s other h = V.contains-erase_other e first_ka_received s other ∙ h

  Awaits-IsStable : Handlers.IsStable H Q V X Awaits
  Awaits-IsStable = record {
    on_manager = λ t m h. h;
    on_notify = λ t e h. notify-Awaits e t.events h;
    on_cmd_calls = λ t l h. h;
    on_errc = λ t e h. h;
    on_forget = λ t h. h;
  }

  -- The methods that do not look for the event.
  call-Awaits :
      (m : Method) (first : Bool)
      → m ≢ check_connected
      → m ≢ handler_state_init
      → Preserves Awaits (Engine.call H Q V X m first)
  unfolding Engine.call
  call-Awaits handler_state_init first other later s h = elim (later refl) [ ]
  call-Awaits handler_state_disconnected first other later s h =
      Handlers.disconnected_keeps H Q V X Awaits Awaits-IsStable (λ t n k. k) (λ t i k. k) first s h
  call-Awaits handler_state_connecting first other later s h =
      Handlers.connecting_keeps H Q V X Awaits Awaits-IsStable (λ t n k. k) first s h
  call-Awaits handler_state_connected first other later s h =
      Handlers.connected_keeps H Q V X Awaits Awaits-IsStable (λ t n k. k) s h
  call-Awaits check_true first other later s h = h
  call-Awaits check_hip_received first other later s h =
      erase-Awaits hip_received s.events (λ e. cc) h
  call-Awaits check_connected first other later s h = elim (other refl) [ ]
  call-Awaits check_ka_timeout first other later s h =
      ground (arith, erase-Awaits ka_timeout_event s.events (λ e. cc) h)
  call-Awaits check_transport_closed first other later s h = h

  finish-Awaits :
      (target : State) (r : Result Transition) (s : Slave)
      → Awaits s
      → Awaits (Engine.finish H Q V X target (r, s))
  unfolding Engine.finish Machine.transition
  finish-Awaits target (ok goto_next_state) s h = h
  finish-Awaits target (ok stay_curr_state) s h = h
  finish-Awaits target (err e) s h = h

  -- Any number of turns of events, none of which looks for the event or is the handler of the state
  -- init, which clears the events.
  pub data Waits (s : Slave) : Slave → Type 0 where
    none_yet : Waits s s
    called :
        {t : Slave} (i : ℕ) (e : State × Method) (first : Bool)
        → Waits s t
        → get_elem? (table t.state) i ≡ some e
        → e.1 ≢ check_connected
        → e.1 ≢ handler_state_init
        → Waits s (Engine.run_entry H Q V X e first t)
    timed : {t : Slave} → Waits s t → Waits s (Engine.run_manager H Q V X t)
    linked : {t : Slave} (l : X.Link) → Waits s t → Waits s (Machine.set_link H Q V X l t)
    sent : {t : Slave} (bs : List BlockView) → Waits s t → Waits s (Engine.send_data H Q V X bs t).1
    sent_blocks :
        {t : Slave} (bs : List Block) → Waits s t → Waits s (Engine.send_data_of H Q V X bs t).1
    started_again : {t : Slave} → Waits s t → Waits s (Engine.start H Q V X t).1
    stopped_now : {t : Slave} → Waits s t → Waits s (Engine.stop H Q V X t).1

  timeouts-Awaits :
      (calls : List (ℕ × Timer)) (s : Slave) → Awaits s → Awaits (Engine.timeouts H Q V X calls s)
  unfolding Engine.timeouts Engine.timeout_cb
  timeouts-Awaits [] s h = h
  timeouts-Awaits ((i, Manager.ka_timeout_cb) ∷ calls) s h =
      timeouts-Awaits calls (Engine.timeout_cb H Q V X s)
        (notify-Awaits ka_timeout_event s.events h)

  Waits-Awaits : (s t : Slave) → Waits s t → Awaits s → Awaits t
  unfolding Engine.run_entry Engine.run_manager Engine.send_data Engine.send_data_of Engine.start
      Engine.stop
  Waits-Awaits s _ none_yet h = h
  Waits-Awaits s _ (called {t} i e first waits entry other later) h =
      let r = Engine.call H Q V X e.1 first t in
      finish-Awaits e.0 r.0 r.1 (call-Awaits e.1 first other later t (Waits-Awaits s t waits h))
  Waits-Awaits s _ (timed {t} waits) h =
      timeouts-Awaits (Manager.run_round H Q X t.manager).0 _ (Waits-Awaits s t waits h)
  Waits-Awaits s _ (linked {t} l waits) h = Waits-Awaits s t waits h
  Waits-Awaits s _ (sent {t} bs waits) h =
      let before : Awaits t = Waits-Awaits s t waits h in ground arith
  Waits-Awaits s _ (sent_blocks {t} bs waits) h =
      let before : Awaits t = Waits-Awaits s t waits h in ground arith
  Waits-Awaits s _ (started_again {t} waits) h =
      let before : Awaits t = Waits-Awaits s t waits h in ground arith
  Waits-Awaits s _ (stopped_now {t} waits) h =
      let before : Awaits t = Waits-Awaits s t waits h in ground arith

  -- A keep-alive that no check has seen stays for the sessions that follow, until the handler of the
  -- state init runs: if neither this handler nor a check for a connection is called in between, then,
  -- however the session that received it ended, the next check for a connection takes it as the first
  -- keep-alive of the session at hand, and the slave is connected.
  pub stale_lem :
      (s t : Slave) (first : Bool)
      → V.contains first_ka_received s.events ≡ true
      → Waits s t
      → ((Engine.run_entry H Q V X (connected, check_connected) first t).state ≡ connected)
        × ((Engine.run_entry H Q V X (connected, check_connected) first t).status_calls
            ≡ t.status_calls ++ ((connected, t.errc) ∷ []))
  unfolding Engine.run_entry Engine.call Engine.finish Machine.run_check_connected
      Machine.transition
  stale_lem s t first h waits =
      let found : (V.erase first_ka_received t.events).0 ≡ true =
        V.erase_found first_ka_received t.events ∙ Waits-Awaits s t waits h in
      rw found (refl, refl)
