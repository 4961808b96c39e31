-- ===== src/Examples/Tcp.antt =====
-- Clients and servers with simple libraries, at which the theorems on TCP are applied.
use libhdcp.Base.{
  ℕ, ◌≤◌, ◌≡◌, refl, List, [], ◌∷◌, true, false, err, arith, no_error, packet_error,
  invalid_header_crc,
}
use libhdcp.Packet.Crc.{compute_crc}
use libhdcp.Packet.Format.{BlockView, cmd}
use libhdcp.Packet.Parse.{Packet, check_header, parse_header}
use libhdcp.Packet.RoundTrip.{packet_of, packet_of-Carries, IsWhole}
use libhdcp.Tcp.Asio.{Operation, reading_header, reading_payload, posted, success}
use libhdcp.Tcp.Endpoint.{put_header}
use libhdcp.Tcp.Endpoint
use libhdcp.Tcp.Client
use libhdcp.Tcp.Server
use libhdcp.Tcp.Receiving.{Reads}
use libhdcp.Tcp.Streams.{wires, reads_of, Arrived, receive_lem}
use libhdcp.Tcp.Streams
use libhdcp.Tcp.Writing.{Ordered}
use libhdcp.Tcp.Life.{none_yet, after, ended, write_called, Runs-Ordered}
use libhdcp.Tcp.Refused.{refused_lem}
use libhdcp.Examples.Instances.{flag_thread}
use libhdcp.Examples.Transports.{list_queue, flag_asio}

abbrev blank : Packet
blank = record { data_ = [] }

-- An endpoint that has these operations under way.
abbrev pub endpoint_with : List Operation → Endpoint.Endpoint flag_thread list_queue flag_asio
endpoint_with os = record {
  thread = true;
  socket = true;
  operations = os;
  looping = true;
  read_packet = blank;
  write_packet = blank;
  write_in_progress = false;
  write_queue = [];
  read_queue = [];
  errc = no_error;
  accepted = [];
  started = [];
}

abbrev block : ℕ → BlockView
block n = record { type = n; content = n ∷ n ∷ [] }

abbrev command : ℕ → Packet
command n = packet_of n cmd (block n ∷ [])

command-IsWhole : (n : ℕ) → n ≤ 9 → IsWhole (command n)
command-IsWhole n h =
    (packet_of-Carries n cmd (block n ∷ []) (omega arith)
      (record { each = omega arith; few = omega arith; small = omega arith })).is_whole

-- Two commands arrive while a posted function waits.
receive_lem_example :
    let c = endpoint_with (posted blank ∷ reading_header ∷ []) in
    let d =
      Streams.feed flag_thread list_queue flag_asio 4 (wires (command 1 ∷ command 2 ∷ [])) c in
    (qs : List Packet) × Arrived (command 1 ∷ command 2 ∷ []) qs
    × (d.read_queue ≡ qs)
    × (d.looping ≡ true)
    × Reads reading_header d.operations
receive_lem_example =
    receive_lem flag_thread list_queue flag_asio (command 1 ∷ command 2 ∷ [])
      (endpoint_with (posted blank ∷ reading_header ∷ []))
      (command-IsWhole 1 (omega arith), (command-IsWhole 2 (omega arith), tt)) refl
      (record { at_read = refl; alone = omega arith }) (omega arith)

abbrev fresh : Endpoint.Endpoint flag_thread list_queue flag_asio
fresh = endpoint_with (reading_header ∷ [])

-- A packet is written, and its function is called.
abbrev written_to : Endpoint.Endpoint flag_thread list_queue flag_asio
written_to =
    Server.run_one flag_thread list_queue flag_asio 1 success []
      (Server.write flag_thread list_queue flag_asio (command 1) fresh).1

Runs-Ordered_example : Ordered flag_thread list_queue flag_asio written_to
Runs-Ordered_example =
    Runs-Ordered flag_thread list_queue flag_asio fresh written_to
      (after (after none_yet (write_called (command 1))) (ended 1 success []))
      (omega arith, λ _. refl, omega arith, refl)

-- A header of zeros, but for its length.
abbrev bad_header : List ℕ
bad_header = 0 ∷ 0 ∷ 0 ∷ 255 ∷ 255 ∷ 0 ∷ 0 ∷ 0 ∷ 0 ∷ 0 ∷ 0 ∷ 0 ∷ 0 ∷ []

bad_header-refused :
    check_header (put_header bad_header blank) ≡ err (packet_error invalid_header_crc)
unfolding check_header parse_header compute_crc
bad_header-refused = refl

-- The server is going to read 65535 bytes into its array.
refused_lem_example :
    ((Client.run_one flag_thread list_queue flag_asio 0 success bad_header fresh).operations
      ≡ reading_header ∷ [])
    × ((Server.run_one flag_thread list_queue flag_asio 0 success bad_header fresh).operations
        ≡ reading_header ∷ reading_payload 65535 ∷ [])
refused_lem_example =
    refused_lem flag_thread list_queue flag_asio 0 bad_header invalid_header_crc fresh refl refl
      bad_header-refused
