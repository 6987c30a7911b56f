-- ===== src/Usb/Pump.antt =====
-- `pump_until`, `usb_transport_recv` and `usb_transport_send` of src/src/usb_transport.c, over the
-- events that the firmware's EventHandler gives.
use ufp_ffu_device_efi.Prelude.{
  ℕ, List, [], ◌∷◌, ◌++◌, Bool, true, false, Option, none, some, ltb, ◌==◌, ◌||◌, ◌&&◌,
  if◌then◌else◌, length,
}
use ufp_ffu_device_efi.Word.{u32}
use ufp_ffu_device_efi.Bytes.{byte, rd_le16, rd_le32, rd_le64}
use ufp_ffu_device_efi.Efi.{is_error, efi_success, efi_aborted, efi_invalid_parameter}
use ufp_ffu_device_efi.Usb.{UsbTransport, UsbSetupPacket, Control, handle_setup}

-- What a call of EventHandler gives: its status, the message, and the 16 bytes of `result`.
pub record UsbEvent : Type 0 where
  pub status : ℕ
  pub msg : ℕ
  pub result : List ℕ

-- USBFN_TRANSFER_RESULT and USB_SETUP_PACKET in these bytes.
abbrev pub bytes_transferred : UsbEvent → ℕ
bytes_transferred e = rd_le64 e.result 0

abbrev pub transfer_status : UsbEvent → ℕ
transfer_status e = rd_le32 e.result 8

abbrev pub endpoint_index : UsbEvent → ℕ
endpoint_index e = byte e.result 12

abbrev pub setup_of : UsbEvent → UsbSetupPacket
setup_of e = record {
  request_type = byte e.result 0;
  request = byte e.result 1;
  value = rd_le16 e.result 2;
  index = rd_le16 e.result 4;
  length' = rd_le16 e.result 6;
}

-- Whether the events came to an end of the loop: the status and the number of bytes. `waiting` is
-- a loop that goes on for another event. With what was done on the control endpoint, and the events
-- that are left.
pub data Pumped : Type 0 where
  returned : ℕ → ℕ → List Control → UsbTransport → List UsbEvent → Pumped
  waiting : List Control → UsbTransport → Pumped

-- The end of a transfer on the bulk endpoint, with the number of bytes to give.
abbrev pub completed : UsbEvent → ℕ → Option (ℕ × ℕ)
completed e bytes =
    if endpoint_index e == 1
    then if transfer_status e == 1 then some (efi_success, bytes) else some (efi_aborted, 0)
    else none

-- Whether an event ends the loop, with the status and the number of bytes. The number is kept only
-- when a message is awaited.
unfoldable pub ends_pump : Bool → Bool → UsbEvent → Option (ℕ × ℕ)
ends_pump want_rx want_tx e =
    if is_error e.status
    then some (e.status, 0)
    else if e.msg == 2 && want_rx
    then completed e (bytes_transferred e)
    else if e.msg == 3 && want_tx
    then completed e 0
    else none

-- What an event that does not end the loop does.
unfoldable pub take_event : UsbEvent → UsbTransport → List Control × UsbTransport
take_event e usb =
    if e.msg == 1
    then (let (control, usb') = handle_setup (setup_of e) usb in (control ∷ [], usb'))
    else if e.msg == 9
    then ([], record usb { speed = u32 (bytes_transferred e) })
    else if e.msg == 4 || e.msg == 6
    then ([], record usb { configured = 0 })
    else ([], usb)

-- The loop of `pump_until`; `done` is what was done on the control endpoint.
unfoldable pub pump_events : Bool → Bool → List UsbEvent → List Control → UsbTransport → Pumped
pump_events want_rx want_tx [] done usb = waiting done usb
pump_events want_rx want_tx (e ∷ es) done usb = elim (ends_pump want_rx want_tx e) [
  | some (status, bytes) ↦ returned status bytes done usb es
  | none ↦
      let (controls, usb') = take_event e usb in
      pump_events want_rx want_tx es (done ++ controls) usb'
]

-- `armed` is the status of the Transfer that asks for a message.
unfoldable pub usb_transport_recv : ℕ → List UsbEvent → UsbTransport → Pumped
usb_transport_recv armed es usb =
    if is_error armed then returned armed 0 [] usb es else pump_events true false es [] usb

-- `started` is the status of the Transfer, which gets the message: what is sent, and what follows.
unfoldable pub usb_transport_send :
    ℕ → List ℕ → List UsbEvent → UsbTransport → Option (List ℕ) × Pumped
usb_transport_send started message es usb =
    if ltb usb.max_transfer (length message)
    then (none, returned efi_invalid_parameter 0 [] usb es)
    else if is_error started
    then (some message, returned started 0 [] usb es)
    else (some message, pump_events false true es [] usb)
