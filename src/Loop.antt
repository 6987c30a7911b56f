-- ===== src/Loop.antt =====
-- `usb_secure_flash_loop` of src/src/main.c: the locals that it keeps from one message to the next,
-- and what the handling of a message comes to. The handling of the secure-flash messages is in
-- Flash, that of the async ones in Async, and the choice between all messages in Dispatch.
use ufp_ffu_device_efi.Prelude.{
  ℕ, List, [], ◌∷◌, ◌++◌, Bool, true, false, Option, none, some, ◌==◌, if◌then◌else◌, replicate,
}
use ufp_ffu_device_efi.Ffu.{empty_plan}
use ufp_ffu_device_efi.Stream.{StreamFlash}
use ufp_ffu_device_efi.Secure.Assembly.{HeaderBuffer}
pub mod Flash
pub mod Async
pub mod Dispatch
pub mod Sent
pub mod Started
pub mod Session
pub mod Whole
pub mod DryRun
pub mod DryAsync
pub mod DryMessages
pub mod Ends
pub mod Complete
mod Tests

-- The locals of the loop. The flasher's `header` points into the header buffer: `flash.header` has
-- the bytes that it sees there, and `dangling` says that the buffer was freed under it.
pub record Loop (D : Type 0) : Type 0 where
  pub buffer : HeaderBuffer
  pub flash : StreamFlash D
  pub dangling : Bool
  pub async_write_status : ℕ
  pub async_last_sector : ℕ
  pub async_ufp_status : ℕ
  pub resp : List ℕ

-- `memset(&flash, 0, sizeof(flash))`, with the device of the loop.
abbrev pub zero_flash : {D : Type 0} → D → StreamFlash D
zero_flash device = record {
  plan = empty_plan;
  device = device;
  header = [];
  header_size = 0;
  entry_data = [];
  entry_capacity = 0;
  entry_index = 0;
  entry_received = 0;
  media_block = 0;
  media_id = 0;
  dry_run = 0;
  final_state = 0;
  last_sector = 0;
}

abbrev pub no_header : HeaderBuffer
no_header = record {
  header = none;
  header_size = 0;
  header_cap = 0;
  header_v2_received = 0;
  flash_ready = false;
}

-- The locals before the first message; `junk` is what is in `resp`.
abbrev pub first_loop : {D : Type 0} → D → List ℕ → Loop D
first_loop device junk = record {
  buffer = no_header;
  flash = zero_flash device;
  dangling = false;
  async_write_status = 0;
  async_last_sector = 0xffff_ffff;
  async_ufp_status = 0;
  resp = junk;
}

-- What the handling of a message comes to: the replies handed to `usb_transport_send`, and the
-- state for the next message, or the status with which the loop is left. `undefined` is what C
-- leaves undefined.
pub data Handled (S : Type 0) : Type 0 where
  next : List (List ℕ) → S → Handled S
  stop : List (List ℕ) → ℕ → S → Handled S
  undefined : Handled S

-- `send_...(&usb, ...); continue;`
abbrev pub answer : {S : Type 0} → List ℕ → S → Handled S
answer sent s = next (sent ∷ []) s

-- The same in a state that the handled one is a part of.
abbrev pub within : {S T : Type 0} → (S → T) → Handled S → Handled T
within f (next replies s) = next replies (f s)
within f (stop replies st s) = stop replies st (f s)
within f undefined = undefined

-- Replies that were sent before.
abbrev pub behind : {S : Type 0} → List (List ℕ) → Handled S → Handled S
behind replies (next more s) = next (replies ++ more) s
behind replies (stop more st s) = stop (replies ++ more) st s
behind replies undefined = undefined

-- What comes after a message that does not end the loop.
abbrev pub and_then : {S : Type 0} → Handled S → (S → Handled S) → Handled S
and_then (next replies s) f = behind replies (f s)
and_then (stop replies st s) f = stop replies st s
and_then undefined f = undefined

-- A received message: what the receive buffer holds, and the length that the host sent.
pub record Message : Type 0 where
  pub bytes : List ℕ
  pub len : ℕ
