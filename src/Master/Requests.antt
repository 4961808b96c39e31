-- ===== src/Master/Requests.antt =====
-- The class Request of src/master_request.h, and the container of the pending requests: a
-- boost::multi_index_container with two unique keys, the timer and the number of the command.
use libhdcp.Base.{
  ℕ, is_some, ◌+◌, List, [], ◌∷◌, Bool, ◌||◌, ◌==◌, Option, none, some, if◌then◌else◌,
}
use libhdcp.Packet.Parse.{Packet}
use libhdcp.Packet.Parse

-- Request::Status
pub data Status : Type 0 where
  pending timeout fulfilled : Status

-- `callback` names the function that the application gave.
pub record Request : Type 0 where
  pub id : ℕ
  pub command : Packet
  pub callback : ℕ
  pub ack : Option Packet
  pub status : Status
  pub retry : ℕ

abbrev pub new_request : ℕ → Packet → ℕ → Request
new_request id cmd callback = record {
  id = id;
  command = cmd;
  callback = callback;
  ack = none;
  status = pending;
  retry = 0;
}

abbrev pub command_id : Request → ℕ
command_id r = Parse.id r.command

-- `find` by the timer, and by the number of the command.
unfoldable pub find_request : ℕ → List Request → Option Request
find_request i [] = none
find_request i (r ∷ rs) = if r.id == i then some r else find_request i rs

unfoldable pub find_command : ℕ → List Request → Option Request
find_command n [] = none
find_command n (r ∷ rs) = if command_id r == n then some r else find_command n rs

unfoldable pub erase_request : ℕ → List Request → List Request
erase_request i [] = []
erase_request i (r ∷ rs) = if r.id == i then rs else r ∷ erase_request i rs

unfoldable pub erase_command : ℕ → List Request → List Request
erase_command n [] = []
erase_command n (r ∷ rs) = if command_id r == n then rs else r ∷ erase_command n rs

-- `insert(r).second`: whether neither key is taken.
unfoldable pub is_taken : Request → List Request → Bool
is_taken r rs = is_some (find_request r.id rs) || is_some (find_command (command_id r) rs)

-- `modify(search, &inc_retry)`
unfoldable pub inc_retry : ℕ → List Request → List Request
inc_retry i [] = []
inc_retry i (r ∷ rs) =
    if r.id == i then record r { retry = r.retry + 1 } ∷ rs else r ∷ inc_retry i rs
