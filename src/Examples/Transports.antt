-- ===== src/Examples/Transports.antt =====
-- Simple queues, sockets and devices, at which the theorems on the transports are applied.
use libhdcp.Base.{
  ℕ, suc, ◌<◌, ◌≡◌, refl, Bool, true, false, not, List, [], ◌∷◌, ◌++◌, length, is_empty, arith, ltb,
  if◌then◌else◌, none, some, ok,
}
use libhdcp.Packet.Parse.{Packet}
use libhdcp.Queues.{PacketQueue, max_queue_size, first, rest}
use libhdcp.Tcp.Asio.{Asio}
use libhdcp.Usb.Libusb.{Libusb, requested}

-- A list that takes a packet while there is room.
abbrev pub list_enqueue : Packet → List Packet → Bool × List Packet
list_enqueue p q = if ltb (length q) max_queue_size then (true, q ++ (p ∷ [])) else (false, q)

pub list_enqueue_room :
    (p : Packet) (q : List Packet) → length q < max_queue_size → (list_enqueue p q).0 ≡ true
list_enqueue_room p q h = ground arith

pub list_enqueue_taken :
    (p : Packet) (q : List Packet)
    → (list_enqueue p q).0 ≡ true
    → (list_enqueue p q).1 ≡ q ++ (p ∷ [])
list_enqueue_taken p q h = ground arith

pub list_enqueue_refused :
    (p : Packet) (q : List Packet) → (list_enqueue p q).0 ≡ false → (list_enqueue p q).1 ≡ q
list_enqueue_refused p q h = ground arith

abbrev pub list_queue : PacketQueue
list_queue = record {
  Queue = List Packet;
  try_enqueue = list_enqueue;
  try_dequeue = λ q. (first q, rest q);
  pop = λ q. (not (is_empty q), rest q);
  size_approx = length;
  contents = λ q. q;
  enqueue_room = list_enqueue_room;
  contents-enqueue = list_enqueue_taken;
  contents-refused = list_enqueue_refused;
  dequeue_first = λ q. refl;
  contents-dequeue = λ q. refl;
  pop_found = λ q. refl;
  contents-pop = λ q. refl;
  size_approx_lem = λ q. refl;
}

-- A socket that tells whether it is open.
abbrev pub flag_asio : Asio
flag_asio = record {
  Socket = Bool;
  is_open = λ s. s;
  connect = λ s. (ok tt, true);
  accept = λ s. true;
  shutdown = λ s. (ok tt, s);
  close = λ s. (ok tt, false);
  operation_aborted = 125;
  eof = 2;
  is_open-accept = λ s. refl;
  is_open-shutdown = λ s. refl;
  is_open-close = λ s. refl;
  different_codes = omega arith;
}

-- A device that gives transfers numbers from 0 on; as long as it is plugged in it takes them.
pub record Bus : Type 0 where
  pub next : ℕ
  pub plugged : Bool

abbrev pub bus_usb : Libusb
bus_usb = record {
  Context = Bus;
  Handle = Unit {0};
  open_device = λ v p c. (if c.plugged then some tt else none, c);
  set_auto_detach = λ h c. (none, c);
  claim_interface = λ h n c. (none, c);
  release_interface = λ h n c. (none, c);
  close_device = λ h c. c;
  alloc_transfer = λ c. (some c.next, record c { next = suc c.next });
  dev_mem_alloc = λ h c. (true, c);
  submit_transfer = λ i c. (if c.plugged then none else some 4, c);
  cancel_transfer = λ i c. (requested, c);
  status_code = λ s. 1;
  error_no_device = 4;
}
