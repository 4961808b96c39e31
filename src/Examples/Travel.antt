-- ===== src/Examples/Travel.antt =====
-- A master over a TCP client and a slave over a TCP server, between which a command travels.
use libhdcp.Base.{◌≡◌, refl, [], ◌∷◌, true, false, ok, some, none, arith, no_error}
use libhdcp.Identity.{no_identification}
use libhdcp.Packet.Parse.{Packet, type}
use libhdcp.Master.Requests.{new_request, fulfilled, find_request, find_command}
use libhdcp.Master.Requests
use libhdcp.Master.Machine.{connected}
use libhdcp.Master.Machine
use libhdcp.Master.Engine
use libhdcp.Slave.Machine as SlaveMachine
use libhdcp.Interfaces.{Transport, Takes}
use libhdcp.Tcp.Asio.{reading_header}
use libhdcp.Tcp.Links.{client, server, client_takes, server_takes, given}
use libhdcp.Master.Session.{begin_keepalive}
use libhdcp.Slave.Engine as SlaveEngine
use libhdcp.Handshake.{handshake_lem}
use libhdcp.Packet.Make.{Identification}
use libhdcp.EndToEnd.{copied, copied-Same, command_round_lem}
use libhdcp.Examples.Instances.{flag_thread, empty_table}
use libhdcp.Examples.Transports.{list_queue, flag_asio}
use libhdcp.Examples.Tcp.{endpoint_with}
use libhdcp.Examples.Session
use libhdcp.Examples.Slave

abbrev Near : Transport
Near = client flag_thread list_queue flag_asio

abbrev Far : Transport
Far = server flag_thread list_queue flag_asio

abbrev near_takes : Takes Near
near_takes = client_takes flag_thread list_queue flag_asio

abbrev far_takes : Takes Far
far_takes = server_takes flag_thread list_queue flag_asio

-- Each packet is read into an array of three bytes.
abbrev carry : Packet → Packet
carry p = copied (record { data_ = 9 ∷ 9 ∷ 9 ∷ [] }) p

abbrev master : Machine.Master flag_thread Session.Queue Session.Events Near
master = record {
  thread = true;
  state = connected;
  events = λ e. false;
  manager = record {
    thread = true;
    ended = false;
    requests = [];
    answers = [];
    timeout_queue = empty_table;
    keepalive_mngt_id = 1;
    dip_id = 0;
    ka_ids = [];
    keepalive_mngt = false;
    now = 0;
    packet_id = 3;
    timeout_keepalive = 0;
    transport = endpoint_with (reading_header ∷ []);
  };
  master_id = no_identification;
  slave_id = no_identification;
  received_packet_id = 0;
  connection_attempts = 0;
  errc = no_error;
  status_calls = [];
  data_calls = [];
}

abbrev slave : SlaveMachine.Slave flag_thread Slave.Queue Slave.Events Far
slave = record {
  thread = true;
  state = SlaveMachine.connected;
  events = λ e. false;
  manager = record {
    thread = true;
    timeout_queue = empty_table;
    keepalive_id = 0;
    now = 0;
    packet_id = 65534;
    keepalive_mngt = false;
    timeout_keepalive = 0;
    transport = endpoint_with (reading_header ∷ []);
  };
  slave_id = no_identification;
  master_id = no_identification;
  received_packet_id = 6;
  errc = no_error;
  status_calls = [];
  cmd_calls = [];
}

no_timer : find_request 0 [] ≡ none
unfolding Requests.find_request
no_timer = refl

no_command : find_command 4 [] ≡ none
unfolding Requests.find_command
no_command = refl

command_round_lem_example :
    let out =
      Engine.send_command flag_thread Session.Queue Session.Events Near 5 (1 ∷ []) 0 master in
    (c k a : Packet) × (out.0 ≡ ok tt)
    × (given flag_thread list_queue flag_asio out.1.manager.transport ≡ c ∷ [])
    × (let served =
          SlaveMachine.receive_connected flag_thread Slave.Queue Slave.Events Far
            (type (carry c))
            (carry c)
            slave in
        (served.0 ≡ ok tt)
        × (served.1.cmd_calls ≡ record { type = 5; content = 1 ∷ [] } ∷ [])
        × (given flag_thread list_queue flag_asio served.1.manager.transport ≡ k ∷ a ∷ []))
    × (let kept =
          Machine.receive_connected flag_thread Session.Queue Session.Events Near
            (type (carry k))
            (carry k)
            out.1 in
        let done =
          Machine.receive_connected flag_thread Session.Queue Session.Events Near
            (type (carry a))
            (carry a)
            kept.1 in
        (kept.0 ≡ ok tt)
        × (done.0 ≡ ok tt)
        × (done.1.manager.answers
            ≡ record (new_request 0 c 0) { status = fulfilled; ack = some (carry a) } ∷ [])
        × (Session.Queue.pending done.1.manager.timeout_queue 0 ≡ none))
command_round_lem_example =
    command_round_lem flag_thread Session.Queue Session.Events Near near_takes flag_thread
      Slave.Queue Slave.Events Far far_takes carry (copied-Same (record { data_ = 9 ∷ 9 ∷ 9 ∷ [] }))
      5 (1 ∷ []) 0 master slave (omega arith) (omega arith) refl refl refl (omega arith) tt no_timer
      no_command

-- A host and a device that do not know each other.
abbrev host : Identification
host = record {
  name = 104 ∷ [];
  serial_number = 48 ∷ [];
  hw_version = 49 ∷ [];
  sw_version = 50 ∷ 51 ∷ [];
}

abbrev device : Identification
device = record { name = 100 ∷ []; serial_number = []; hw_version = 49 ∷ []; sw_version = 50 ∷ [] }

abbrev asking : Machine.Master flag_thread Session.Queue Session.Events Near
asking = record master { state = Machine.connecting; master_id = host }

abbrev alone : SlaveMachine.Slave flag_thread Slave.Queue Slave.Events Far
alone = record slave { state = SlaveMachine.disconnected; slave_id = device }

handshake_lem_example :
    let asked = Machine.attempt flag_thread Session.Queue Session.Events Near asking in
    (h d k : Packet) × (asked.0 ≡ ok tt)
    × (given flag_thread list_queue flag_asio asked.1.manager.transport ≡ h ∷ [])
    × (let met =
          SlaveMachine.receive_disconnected flag_thread Slave.Queue Slave.Events Far
            (type (carry h))
            (carry h)
            alone in
        let invited =
          SlaveEngine.run_entry flag_thread Slave.Queue Slave.Events Far
            (SlaveMachine.connecting, SlaveMachine.check_hip_received)
            false
            met.1 in
        let joined =
          SlaveMachine.enter_connecting flag_thread Slave.Queue Slave.Events Far invited in
        let known =
          Machine.receive_connecting flag_thread Session.Queue Session.Events Near
            (type (carry d))
            (carry d)
            asked.1 in
        let on =
          Engine.run_entry flag_thread Session.Queue Session.Events Near
            (connected, Machine.check_connected)
            false
            known.1 in
        let kept = begin_keepalive flag_thread Session.Queue Session.Events Near on in
        let heard =
          SlaveMachine.receive_connecting flag_thread Slave.Queue Slave.Events Far
            (type (carry k))
            (carry k)
            joined.1 in
        let ready =
          SlaveEngine.run_entry flag_thread Slave.Queue Slave.Events Far
            (SlaveMachine.connected, SlaveMachine.check_connected)
            false
            heard.1 in
        (met.1.master_id ≡ host)
        × (invited.state ≡ SlaveMachine.connecting)
        × (joined.0 ≡ ok tt)
        × (given flag_thread list_queue flag_asio joined.1.manager.transport ≡ d ∷ [])
        × (known.0 ≡ ok tt)
        × (known.1.slave_id ≡ device)
        × (on.state ≡ connected)
        × (kept.0 ≡ ok tt)
        × (given flag_thread list_queue flag_asio kept.1.manager.transport ≡ h ∷ k ∷ [])
        × (heard.0 ≡ ok tt)
        × (ready.state ≡ SlaveMachine.connected))
handshake_lem_example =
    handshake_lem flag_thread Session.Queue Session.Events Near near_takes flag_thread Slave.Queue
      Slave.Events Far far_takes carry (copied-Same (record { data_ = 9 ∷ 9 ∷ 9 ∷ [] })) asking
      alone (omega arith) (omega arith) refl refl
