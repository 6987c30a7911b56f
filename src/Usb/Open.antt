-- ===== src/Usb/Open.antt =====
-- `usb_transport_open` and `usb_transport_close` of src/src/usb_transport.c: the buffers that are
-- obtained and given back, and the calls of the firmware.
use ufp_ffu_device_efi.Prelude.{
  ℕ, List, [], ◌∷◌, ◌++◌, Bool, true, false, Option, none, some, ltb, ◌!=◌, ◌||◌, ◌&&◌, not,
  if◌then◌else◌,
}
use ufp_ffu_device_efi.Efi.{is_error, efi_success, efi_unsupported, efi_out_of_resources}

-- What the firmware gives: whether there is LocateProtocol, its status and whether the interface is
-- not null; GetMaxTransferSize with its status and size, the statuses of the two calls of
-- AllocateTransferBuffer, or whether the two of `uefi_alloc` succeed, the statuses of
-- StartController and ConfigureEnableEndpoints; and whether there are AbortTransfer,
-- StopController and FreeTransferBuffer.
pub record UsbFirmware : Type 0 where
  pub has_locate : Bool
  pub located : ℕ
  pub has_io : Bool
  pub max_transfer_size : Option (ℕ × ℕ)
  pub allocate_transfer_buffer : Option (ℕ × ℕ)
  pub alloc_rx : Bool
  pub alloc_tx : Bool
  pub start_controller : Option ℕ
  pub configure_endpoints : ℕ
  pub has_abort : Bool
  pub has_stop : Bool
  pub has_free : Bool

-- Who has a buffer's memory: the protocol, with AllocateTransferBuffer and FreeTransferBuffer, or the
-- boot services, with `uefi_alloc` and `uefi_free`.
pub data Allocator : Type 0 where
  transfer : Allocator
  boot : Allocator

-- The calls that have an effect; a buffer is obtained with its size.
pub data UsbCall : Type 0 where
  got_rx : Allocator → ℕ → UsbCall
  got_tx : Allocator → ℕ → UsbCall
  started : UsbCall
  configured : UsbCall
  abort_out : UsbCall
  abort_in : UsbCall
  stopped : UsbCall
  free_rx : Allocator → UsbCall
  free_tx : Allocator → UsbCall

-- `usb->max_transfer` once the protocol is there.
unfoldable pub transfer_size : Option (ℕ × ℕ) → ℕ
transfer_size none = 0x24_1000
transfer_size (some (status, reported)) =
    if not (is_error status) && (reported != 0 && ltb reported 0x24_1000)
    then reported
    else 0x24_1000

-- `if (usb->io->FreeTransferBuffer)`
abbrev pub freed_by : UsbFirmware → Allocator
freed_by fw = if fw.has_free then transfer else boot

-- What `usb_transport_close` does while `rx` and `tx` say which buffers are not null; `uefi_free` of
-- a null pointer does nothing.
unfoldable pub usb_transport_close : UsbFirmware → Bool → Bool → List UsbCall
usb_transport_close fw rx tx =
    (if fw.has_abort then abort_out ∷ abort_in ∷ [] else [])
    ++ (if fw.has_stop then stopped ∷ [] else [])
    ++ (if rx then free_rx (freed_by fw) ∷ [] else [])
    ++ (if tx then free_tx (freed_by fw) ∷ [] else [])

-- The endpoints, after the calls so far.
unfoldable pub open_endpoints : UsbFirmware → List UsbCall → ℕ × List UsbCall
open_endpoints fw calls =
    if is_error fw.configure_endpoints
    then (fw.configure_endpoints, calls ++ usb_transport_close fw true true)
    else (efi_success, calls ++ configured ∷ [])

-- The controller, with both buffers there.
unfoldable pub open_controller : UsbFirmware → List UsbCall → ℕ × List UsbCall
open_controller fw calls = elim fw.start_controller [
  | none ↦ open_endpoints fw calls
  | some status ↦
      if is_error status
      then (status, calls ++ usb_transport_close fw true true)
      else open_endpoints fw (calls ++ started ∷ [])
]

-- The buffers, of that size.
unfoldable pub open_buffers : UsbFirmware → ℕ → ℕ × List UsbCall
open_buffers fw size = elim fw.allocate_transfer_buffer [
  | none ↦
      if not fw.alloc_rx || not fw.alloc_tx
      then (
        efi_out_of_resources,
        (if fw.alloc_rx then got_rx boot size ∷ [] else [])
            ++ (if fw.alloc_tx then got_tx boot size ∷ [] else [])
            ++ usb_transport_close fw fw.alloc_rx fw.alloc_tx,
      )
      else open_controller fw (got_rx boot size ∷ got_tx boot size ∷ [])
  | some (for_rx, for_tx) ↦
      if is_error for_rx
      then (for_rx, [])
      else if is_error for_tx
      then (for_tx, got_rx transfer size ∷ usb_transport_close fw true false)
      else open_controller fw (got_rx transfer size ∷ got_tx transfer size ∷ [])
]

-- With a transport that is not null: the status and the calls.
unfoldable pub usb_transport_open : UsbFirmware → ℕ × List UsbCall
usb_transport_open fw =
    if not fw.has_locate
    then (efi_unsupported, [])
    else if is_error fw.located || not fw.has_io
    then (fw.located, [])
    else open_buffers fw (transfer_size fw.max_transfer_size)
