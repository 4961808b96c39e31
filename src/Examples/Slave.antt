-- ===== src/Examples/Slave.antt =====
-- A slave with simple libraries, at which the theorems on slaves are applied.
use libhdcp.Base.{
  ◌≤◌, ◌⊎◌, inr, ℕ, zero, suc, ◌<◌, ◌*◌, ◌^◌, ◌≡◌, refl, List, [], ◌∷◌, true, false, ok, err, arith,
  length, no_error, packet_error, invalid_number_of_block, All,
}
use mathlib.Core.List.{flatten}
use libhdcp.Interfaces.{TimeoutQueue, EventMngr}
use libhdcp.Identity.{no_identification}
use libhdcp.Packet.Format.{max_pl_size, BlockView, hip, data_packet}
use libhdcp.Packet.Parse.{Packet, id, type}
use libhdcp.Packet.Make.{Identification, id_blocks}
use libhdcp.Packet.Blocks.{BlockFits, total_size}
use libhdcp.Packet.RoundTrip.{Carries, packet_of, packet_of-Carries}
use libhdcp.Slave.Manager.{Timer}
use libhdcp.Slave.Manager
use libhdcp.Slave.Groups.{groups, Sendable}
use libhdcp.Slave.Groups
use libhdcp.Slave.Sending.{send_data_lem, send_data_too_many}
use libhdcp.Slave.Machine.{
  State, Event, init, disconnected, connected, first_ka_received, ka_timeout_event,
  check_ka_timeout, check_connected, check_hip_received, check_transport_closed,
}
use libhdcp.Slave.Machine
use libhdcp.Slave.Engine
use libhdcp.Slave.Session.{run_entry-Reported, Reported}
use libhdcp.Slave.Commands.{command_lem}
use libhdcp.Slave.Life.{Step, called, sent, none_yet, then, last_state, Steps-IsReported}
use libhdcp.Packet.Format.{cmd, cmd_ack, ka_ack, le16}
use libhdcp.Examples.Instances.{
  flag_thread, table_queue, empty_table, event_set, pipe, Pipe, pipe_takes,
}

pub Event-discrete : Discrete Event
Event-discrete = hlevel

abbrev pub Queue : TimeoutQueue Timer
Queue = table_queue Timer

abbrev pub Events : EventMngr Event
Events = event_set Event Event-discrete

abbrev pub link_with : List Packet → Pipe
link_with ps = record { opened = true; outbox = []; inbox = ps }

abbrev pub manager_with : List Packet → Manager.Manager flag_thread Queue pipe
manager_with ps = record {
  thread = true;
  timeout_queue = empty_table;
  keepalive_id = 0;
  now = 0;
  packet_id = 65534;
  keepalive_mngt = false;
  timeout_keepalive = 0;
  transport = link_with ps;
}

abbrev pub slave_in : State → List Packet → Machine.Slave flag_thread Queue Events pipe
slave_in st ps = record {
  thread = true;
  state = st;
  events = λ e. false;
  manager = manager_with ps;
  slave_id = no_identification;
  master_id = no_identification;
  received_packet_id = 6;
  errc = no_error;
  status_calls = [];
  cmd_calls = [];
}

abbrev host : Identification
host = record {
  name = 104 ∷ 111 ∷ [];
  serial_number = 48 ∷ [];
  hw_version = 49 ∷ [];
  sw_version = 50 ∷ [];
}

abbrev hip_packet : Packet
hip_packet = packet_of 9 hip (id_blocks host)

run_entry-Reported_example :
    Reported flag_thread Queue Events pipe
      (slave_in init [])
      (Engine.run_entry flag_thread Queue Events pipe
        (disconnected, Machine.check_true)
        true
        (slave_in init []))
      no_error
unfolding Engine.call
run_entry-Reported_example =
    run_entry-Reported flag_thread Queue Events pipe (slave_in init []) 1
      (disconnected, Machine.check_true) true refl

abbrev two_blocks : List BlockView
two_blocks = record { type = 1; content = 5 ∷ [] } ∷ record { type = 2; content = 6 ∷ 7 ∷ [] } ∷ []

abbrev two_blocks_manager : Manager.Manager flag_thread Queue pipe
two_blocks_manager = manager_with []

two_blocks-Sendable : All Sendable two_blocks
two_blocks-Sendable = (
  record { fits = omega arith; small = omega arith },
  (record { fits = omega arith; small = omega arith }, tt),
)

groups-two_blocks : groups two_blocks ≡ two_blocks ∷ []
unfolding Groups.groups_from
groups-two_blocks = refl

two_blocks_few : All (λ g. length g < 2 ^ 8) (groups two_blocks)
unfolding Groups.groups_from
two_blocks_few = omega arith

-- The two blocks travel in one packet, numbered 65535.
send_data_lem_example :
    let r = Manager.send_data flag_thread Queue pipe two_blocks two_blocks_manager in
    (r.0 ≡ ok tt)
    × (r.1.transport.outbox ≡ packet_of 65535 data_packet two_blocks ∷ [])
    × (r.1.packet_id ≡ 65535)
    × (flatten (two_blocks ∷ []) ≡ two_blocks)
    × All (λ g. total_size g ≤ max_pl_size) (two_blocks ∷ [])
unfolding Groups.groups_from
send_data_lem_example =
    send_data_lem flag_thread Queue pipe pipe_takes two_blocks two_blocks_manager
      two_blocks-Sendable two_blocks_few refl (omega arith)

abbrev tiny : BlockView
tiny = record { type = 1; content = [] }

copies : ℕ → List BlockView
copies zero = []
copies (suc n) = tiny ∷ copies n

copies-BlockFits : (n : ℕ) → All BlockFits (copies n)
unfolding copies
copies-BlockFits zero = tt
copies-BlockFits (suc n) = (omega arith, copies-BlockFits n)

total_size-copies : (n : ℕ) → total_size (copies n) ≡ 4 * n
unfolding copies
total_size-copies zero = refl
total_size-copies (suc n) = omega (arith, total_size-copies n)

length-copies : (n : ℕ) → length (copies n) ≡ n
unfolding copies
length-copies zero = refl
length-copies (suc n) = omega (arith, length-copies n)

send_data_too_many_example :
    Manager.send_data flag_thread Queue pipe (copies 256) two_blocks_manager ≡ (
      err (packet_error invalid_number_of_block),
      Manager.next_id flag_thread Queue pipe two_blocks_manager,
    )
send_data_too_many_example =
    send_data_too_many flag_thread Queue pipe pipe_takes (copies 256) two_blocks_manager
      (copies-BlockFits 256) (omega (arith, total_size-copies 256))
      (omega (arith, length-copies 256))

abbrev command_block : BlockView
command_block = record { type = 5; content = 1 ∷ [] }

abbrev command_packet : Packet
command_packet = packet_of 7 cmd (command_block ∷ [])

command_packet-Carries : Carries command_packet 7 cmd (command_block ∷ [])
command_packet-Carries =
    packet_of-Carries 7 cmd (command_block ∷ []) (omega arith)
      (record { each = omega arith; few = omega arith; small = omega arith })

-- The numbers go round: the packets are numbered 65535 and 0.
command_lem_example :
    let s = slave_in connected [] in
    let r =
      Machine.receive_connected flag_thread Queue Events pipe
        (type command_packet)
        command_packet
        s in
    (p q : Packet) × Carries p 65535 ka_ack []
    × Carries q 0 cmd_ack (record { type = 5; content = le16 (id command_packet) } ∷ [])
    × (r.0 ≡ ok tt)
    × (r.1.manager.transport.outbox ≡ p ∷ q ∷ [])
    × (r.1.cmd_calls ≡ command_block ∷ [])
command_lem_example =
    command_lem flag_thread Queue Events pipe pipe_takes command_packet command_block
      (slave_in connected []) command_packet-Carries.has_type command_packet-Carries.has_blocks
      (omega arith) (omega (arith, command_packet-Carries.has_id)) refl

-- The slave boots, and the application sends data too early.
abbrev booted : Machine.Slave flag_thread Queue Events pipe
booted =
    Engine.run_entry flag_thread Queue Events pipe (disconnected, Machine.check_true) true
      (slave_in init [])

abbrev early : Machine.Slave flag_thread Queue Events pipe
early = (Engine.send_data flag_thread Queue Events pipe two_blocks booted).1

boot-Step : Step flag_thread Queue Events pipe (slave_in init []) booted
boot-Step = called 1 (disconnected, Machine.check_true) true refl

Steps-IsReported_example : (early.state ≡ init) ⊎ (last_state init early.status_calls ≡ early.state)
Steps-IsReported_example =
    Steps-IsReported flag_thread Queue Events pipe (slave_in init []) early
      (then (then none_yet boot-Step) (sent two_blocks)) (inr refl)
