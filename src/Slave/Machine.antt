-- ===== src/Slave/Machine.antt =====
-- The class Slave of src/slave.h and src/slave.cpp: its handlers, its checks and its table of
-- transitions. The engine common::Statemachine chooses when an entry of the table is called, and
-- tells the handlers whether this is the first round in the state (`nb_loop_in_current_state() == 1`).
use libhdcp.Base.{
  ℕ, ◌+◌, ◌%◌, ◌^◌, List, [], ◌∷◌, ◌++◌, Bool, true, false, Option, none, some, ok, ErrorCode,
  no_error, appli_code, ka_timeout, ◌==◌, not, if◌then◌else◌,
}
use libhdcp.Base.State.{M, pure, modify, when, gets, ◌>>=◌, ◌>>◌}
use libhdcp.Identity.{set_fields, no_identification}
use libhdcp.Interfaces.{Thread, TimeoutQueue, EventMngr, Transport}
use libhdcp.Packet.Format.{BlockView, PacketType, hip, ka, cmd}
use libhdcp.Packet.Parse.{Packet, id, type, blocks}
use libhdcp.Packet.Make.{Identification}
use libhdcp.Slave.Manager.{Timer, Manager}
use libhdcp.Slave.Manager
use libhdcp.Timing.{keepalive_timeout}

-- Slave::State
pub data State : Type 0 where
  init disconnected connecting connected : State

-- Slave::Event
pub data Event : Type 0 where
  hip_received first_ka_received ka_timeout_event : Event

-- common::transition_status
pub data Transition : Type 0 where
  stay_curr_state goto_next_state : Transition

-- The member functions that the table names.
pub data Method : Type 0 where
  handler_state_init handler_state_disconnected : Method
  handler_state_connecting handler_state_connected : Method
  check_true check_hip_received check_connected check_ka_timeout check_transport_closed : Method

-- `states_`: for each state the entries, a target and the function that decides on it.
abbrev pub table : State → List (State × Method)
table init = (init, handler_state_init) ∷ (disconnected, check_true) ∷ []
table disconnected =
    (disconnected, handler_state_disconnected)
    ∷ (disconnected, check_transport_closed)
    ∷ (connecting, check_hip_received)
    ∷ []
table connecting =
    (connecting, handler_state_connecting)
    ∷ (disconnected, check_transport_closed)
    ∷ (disconnected, check_ka_timeout)
    ∷ (connected, check_connected)
    ∷ []
table connected =
    (connected, handler_state_connected)
    ∷ (disconnected, check_transport_closed)
    ∷ (disconnected, check_ka_timeout)
    ∷ (connecting, check_hip_received)
    ∷ []

module _ (H : Thread) (Q : TimeoutQueue Timer) (V : EventMngr Event) (X : Transport) where
  -- `status_calls` and `cmd_calls` record the calls of the two callbacks, the last one last; the
  -- callbacks are set. The state of the engine is `state`. The transport is the manager's.
  pub record Slave : Type 0 where
    pub thread : H.Handle
    pub state : State
    pub events : V.Events
    pub manager : Manager H Q X
    pub slave_id : Identification
    pub master_id : Identification
    pub received_packet_id : ℕ
    pub errc : ErrorCode
    pub status_calls : List (State × ErrorCode)
    pub cmd_calls : List BlockView

  abbrev pub link : Slave → X.Link
  link s = s.manager.transport

  abbrev pub set_link : X.Link → Slave → Slave
  set_link l s = record s { manager = record s.manager { transport = l } }

  abbrev pub on_manager : M (Manager H Q X) (Unit {0}) → M Slave (Unit {0})
  on_manager f s = ((f s.manager).0, record s { manager = (f s.manager).1 })

  abbrev pub change_manager : (Manager H Q X → Manager H Q X) → M Slave (Unit {0})
  change_manager f s = (ok tt, record s { manager = f s.manager })

  abbrev pub notify : Event → M Slave (Unit {0})
  notify e s = (ok tt, record s { events = V.notify e s.events })

  abbrev pub clear_queues : M Slave (Unit {0})
  clear_queues s = (ok tt, set_link (X.clear_queues (link s)) s)

  -- `transport_->read(p)`
  abbrev pub read : M Slave (Option Packet)
  read s = (ok (X.read (link s)).0, set_link (X.read (link s)).1 s)

  -- The transition handler that the constructor sets.
  unfoldable pub transition : State → Slave → Slave
  transition next s = record s {
    state = next;
    status_calls = s.status_calls ++ ((next, s.errc) ∷ []);
    errc = no_error;
  }

  unfoldable pub run_handler_init : M Slave Transition
  run_handler_init = do
    modify (λ s. record s {
      events = V.clear s.events;
      master_id = no_identification;
      errc = no_error;
    })
    pure stay_curr_state

  unfoldable pub set_master_id : Packet → Slave → Slave
  set_master_id p s = record s { master_id = set_fields s.master_id (blocks p) }

  -- `if (!transport_->read(p)) return`; the packet goes to what follows.
  abbrev pub for_packet : (Packet → M Slave (Unit {0})) → Option Packet → M Slave (Unit {0})
  for_packet f none = pure tt
  for_packet f (some p) = f p

  -- The `switch` of handler_state_disconnected.
  unfoldable pub receive_disconnected : Option PacketType → Packet → M Slave (Unit {0})
  unfolding set_master_id
  receive_disconnected (some hip) p = do
    modify (λ s. record s { received_packet_id = id p })
    modify (set_master_id p)
    notify hip_received
  receive_disconnected _ p = pure tt

  unfoldable pub run_handler_disconnected : Bool → M Slave Transition
  unfolding receive_disconnected
  run_handler_disconnected first = do
    when first (change_manager (Manager.stop H Q X) >> clear_queues)
    read >>= for_packet (λ p. receive_disconnected (type p) p)
    pure stay_curr_state

  -- `if (++received_packet_id_ != p.id())`, with its assignment.
  unfoldable pub count_packet : Packet → Slave → Slave
  count_packet p s =
      let expected = (s.received_packet_id + 1) % 2 ^ 16 in
      record s { received_packet_id = if expected == id p then expected else id p }

  -- The `switch` of handler_state_connecting.
  unfoldable pub receive_connecting : Option PacketType → Packet → M Slave (Unit {0})
  receive_connecting (some ka) p = do on_manager (Manager.keepalive H Q X); notify first_ka_received
  receive_connecting _ p = pure tt

  -- What the first round in the state connecting does.
  unfoldable pub enter_connecting : M Slave (Unit {0})
  enter_connecting = do
    change_manager (Manager.start H Q X)
    id ← gets (λ s. s.slave_id)
    on_manager (Manager.send_dip H Q X id)
    change_manager (Manager.start_keepalive_management H Q X keepalive_timeout)

  unfoldable pub run_handler_connecting : Bool → M Slave Transition
  unfolding enter_connecting count_packet receive_connecting
  run_handler_connecting first = do
    when first enter_connecting
    read >>= for_packet (λ p. do modify (count_packet p); receive_connecting (type p) p)
    pure stay_curr_state

  -- `cmd_cb_(blocks[0])` if there is exactly one block; what the callback throws is caught.
  unfoldable pub deliver : List BlockView → Slave → Slave
  deliver [] s = s
  deliver (b ∷ []) s = record s { cmd_calls = s.cmd_calls ++ (b ∷ []) }
  deliver (b ∷ c ∷ bs) s = s

  -- The `switch` of handler_state_connected.
  unfoldable pub receive_connected : Option PacketType → Packet → M Slave (Unit {0})
  unfolding deliver
  receive_connected (some hip) p = do
    modify (λ s. record s { master_id = no_identification })
    change_manager (Manager.stop_keepalive_management H Q X)
    change_manager (Manager.stop H Q X)
    notify hip_received
  receive_connected (some cmd) p = do
    on_manager (Manager.keepalive H Q X)
    on_manager (Manager.send_cmd_ack H Q X p)
    modify (deliver (blocks p))
  receive_connected (some ka) p = on_manager (Manager.keepalive H Q X)
  receive_connected _ p = pure tt

  unfoldable pub run_handler_connected : M Slave Transition
  unfolding count_packet receive_connected
  run_handler_connected = do
    read >>= for_packet (λ p. do modify (count_packet p); receive_connected (type p) p)
    pure stay_curr_state

  abbrev pub goto_if : Bool → Transition
  goto_if true = goto_next_state
  goto_if false = stay_curr_state

  -- `evt_mngr_.erase(e)` as a condition.
  abbrev pub take_event : Event → M Slave Bool
  take_event e s = (ok (V.erase e s.events).0, record s { events = (V.erase e s.events).1 })

  abbrev pub run_check_true : M Slave Transition
  run_check_true = pure goto_next_state

  unfoldable pub run_check_hip_received : M Slave Transition
  run_check_hip_received = do b ← take_event hip_received; pure (goto_if b)

  unfoldable pub run_check_connected : M Slave Transition
  run_check_connected = do b ← take_event first_ka_received; pure (goto_if b)

  unfoldable pub run_check_ka_timeout : M Slave Transition
  run_check_ka_timeout = do
    b ← take_event ka_timeout_event
    when b (modify (λ s. record s { errc = appli_code ka_timeout }))
    pure (goto_if b)

  unfoldable pub run_check_transport_closed : M Slave Transition
  run_check_transport_closed = do
    modify (λ s. record s { errc = X.error_code (link s) })
    is_open ← gets (λ s. X.is_open (link s))
    pure (goto_if (not is_open))
