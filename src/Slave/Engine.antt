-- ===== src/Slave/Engine.antt =====
-- The class Slave of src/slave.cpp as a whole: the engine's calls, the timeouts, and the methods
-- that the application calls.
use libhdcp.Base.{
  ℕ, List, [], ◌∷◌, Bool, true, false, Result, ok, err, application_error, write_while_disconnected,
  if◌then◌else◌,
}
use libhdcp.Base.State.{M, modify, ◌>>◌}
use libhdcp.Interfaces.{Thread, TimeoutQueue, EventMngr, Transport}
use libhdcp.Packet.Format.{Block, BlockView}
use libhdcp.Slave.Manager.{Timer}
use libhdcp.Slave.Manager
use libhdcp.Slave.Machine.{
  State, init, connected, Event, ka_timeout_event, Transition, stay_curr_state, goto_next_state,
  Method, handler_state_init, handler_state_disconnected, handler_state_connecting,
  handler_state_connected, check_true, check_hip_received, check_connected, check_ka_timeout,
  check_transport_closed,
}
use libhdcp.Slave.Machine

module _ (H : Thread) (Q : TimeoutQueue Timer) (V : EventMngr Event) (X : Transport) where
  abbrev Slave : Type 0
  Slave = Machine.Slave H Q V X

  unfoldable pub call : Method → Bool → M Slave Transition
  unfolding Machine.run_handler_init Machine.run_handler_disconnected Machine.run_handler_connecting
      Machine.run_handler_connected Machine.run_check_hip_received Machine.run_check_connected
      Machine.run_check_ka_timeout Machine.run_check_transport_closed
  call handler_state_init first = Machine.run_handler_init H Q V X
  call handler_state_disconnected first = Machine.run_handler_disconnected H Q V X first
  call handler_state_connecting first = Machine.run_handler_connecting H Q V X first
  call handler_state_connected first = Machine.run_handler_connected H Q V X
  call check_true first = Machine.run_check_true H Q V X
  call check_hip_received first = Machine.run_check_hip_received H Q V X
  call check_connected first = Machine.run_check_connected H Q V X
  call check_ka_timeout first = Machine.run_check_ka_timeout H Q V X
  call check_transport_closed first = Machine.run_check_transport_closed H Q V X

  -- What the engine does with the answer; `run` logs an exception and goes on.
  unfoldable pub finish : State → Result Transition × Slave → Slave
  unfolding Machine.transition
  finish target (ok goto_next_state, s) = Machine.transition H Q V X target s
  finish target (ok stay_curr_state, s) = s
  finish target (err e, s) = s

  -- The engine calls one entry of the table.
  unfoldable pub run_entry : State × Method → Bool → Slave → Slave
  unfolding call finish
  run_entry (target, method) first s = finish target (call method first s)

  -- `timeout_cb`, which the manager calls for every timeout of a keep-alive.
  unfoldable pub timeout_cb : Slave → Slave
  timeout_cb s = record s { events = V.notify ka_timeout_event s.events }

  unfoldable pub timeouts : List (ℕ × Timer) → Slave → Slave
  unfolding timeout_cb
  timeouts [] s = s
  timeouts ((i, Manager.ka_timeout_cb) ∷ calls) s = timeouts calls (timeout_cb s)

  -- One round of the manager's thread.
  unfoldable pub run_manager : Slave → Slave
  unfolding timeouts
  run_manager s =
      let (calls, m) = Manager.run_round H Q X s.manager in
      timeouts calls (record s { manager = m })

  abbrev is_connected : State → Bool
  is_connected connected = true
  is_connected _ = false

  -- `Slave::send_data`, of the application.
  unfoldable pub send_data : List BlockView → M Slave (Unit {0})
  send_data bs s =
      if is_connected s.state
      then (Machine.on_manager H Q V X) (Manager.send_data H Q X bs) s
      else (err (application_error write_while_disconnected), s)

  -- `Slave::send_data`, of blocks that own their bytes.
  unfoldable pub send_data_of : List Block → M Slave (Unit {0})
  send_data_of bs s =
      if is_connected s.state
      then (Machine.on_manager H Q V X) (Manager.send_data_of H Q X bs) s
      else (err (application_error write_while_disconnected), s)

  -- `Slave::start` and `Slave::stop`. `reinit` puts the engine into the first state.
  unfoldable pub start : M Slave (Unit {0})
  start s =
      if H.is_running s.thread
      then (ok tt, s)
      else (do
        (λ s. (
          (X.start ((Machine.link H Q V X) s)).0,
          (Machine.set_link H Q V X) (X.start ((Machine.link H Q V X) s)).1 s,
        ))
        modify (λ s. record s { state = init; thread = H.start s.thread }))
          s

  unfoldable pub stop : M Slave (Unit {0})
  stop s =
      if H.is_running s.thread
      then (do
        modify (λ s. record s { thread = H.stop s.thread })
        (Machine.change_manager H Q V X) (Manager.stop H Q X)
        (λ s. (
          (X.stop ((Machine.link H Q V X) s)).0,
          (Machine.set_link H Q V X) (X.stop ((Machine.link H Q V X) s)).1 s,
        )))
          s
      else (ok tt, s)
