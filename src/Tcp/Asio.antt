-- ===== src/Tcp/Asio.antt =====
-- What the transports over TCP use of boost::asio: the calls on a socket, and the asynchronous
-- operations, which end by a call of their handler with an error code.
use libhdcp.Base.{ℕ, zero, suc, ◌≡◌, ◌≢◌, Bool, true, false, Result, List, [], ◌∷◌}
use libhdcp.Packet.Parse.{Packet}

-- A call that may throw returns a result. `connect` is `resolve` and `connect`; `accept` is what an
-- `async_accept` that succeeds makes of the socket. The two codes are those of boost::asio::error.
pub record Asio : Type 1 where
  pub Socket : Type 0
  pub is_open : Socket → Bool
  pub connect : Socket → Result (Unit {0}) × Socket
  pub accept : Socket → Socket
  pub shutdown : Socket → Result (Unit {0}) × Socket
  pub close : Socket → Result (Unit {0}) × Socket
  pub operation_aborted : ℕ
  pub eof : ℕ
  pub is_open-accept : (s : Socket) → is_open (accept s) ≡ true
  pub is_open-shutdown : (s : Socket) → is_open (shutdown s).1 ≡ is_open s
  pub is_open-close : (s : Socket) → is_open (close s).1 ≡ false
  pub different_codes : eof ≢ operation_aborted

-- boost::system::error_code
pub data Code : Type 0 where
  success : Code
  failure : ℕ → Code

-- What was started and has not ended: an accept; a read of as many bytes as a header has, or as
-- many as the number says, into the packet that is read; a write of the bytes of a packet; and a
-- function that was posted, with the packet that it holds.
pub data Operation : Type 0 where
  accepting reading_header : Operation
  reading_payload : ℕ → Operation
  writing posted : Packet → Operation

-- Takes out one operation of a list.
abbrev pub remove {ℓ} : {A : Type ℓ} → ℕ → List A → List A
remove i [] = []
remove zero (x ∷ xs) = xs
remove (suc i) (x ∷ xs) = x ∷ remove i xs
