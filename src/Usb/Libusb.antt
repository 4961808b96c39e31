-- ===== src/Usb/Libusb.antt =====
-- What the transport over USB uses of libusb. A call that answers a negative number gives it as
-- `some`, without its sign.
use libhdcp.Base.{ℕ, Bool, Option}

-- LIBUSB_TRANSFER_COMPLETED and its kin; a status that is none of them is `unknown`.
pub data Status : Type 0 where
  completed cancelled timed_out stall no_device overflow error unknown : Status

-- What `libusb_cancel_transfer` answers: 0, LIBUSB_ERROR_NOT_FOUND, or another error.
pub data Cancel : Type 0 where
  requested not_found : Cancel
  refused : ℕ → Cancel

-- A transfer is named by a number, its address. `open_device` may answer null, and so may the
-- allocations of a transfer and of the memory of a device.
pub record Libusb : Type 1 where
  pub Context : Type 0
  pub Handle : Type 0
  pub open_device : ℕ → ℕ → Context → Option Handle × Context
  pub set_auto_detach : Handle → Context → Option ℕ × Context
  pub claim_interface : Handle → ℕ → Context → Option ℕ × Context
  pub release_interface : Handle → ℕ → Context → Option ℕ × Context
  pub close_device : Handle → Context → Context
  pub alloc_transfer : Context → Option ℕ × Context
  pub dev_mem_alloc : Handle → Context → Bool × Context
  pub submit_transfer : ℕ → Context → Option ℕ × Context
  pub cancel_transfer : ℕ → Context → Cancel × Context
  pub status_code : Status → ℕ
  pub error_no_device : ℕ
