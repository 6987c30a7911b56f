-- ===== src/Usb/Events.antt =====
-- What the loop over the events in src/src/usb_transport.c comes to when a message is awaited.
use mathlib.Core.Path.{subst}
use ufp_ffu_device_efi.Prelude.{
  ℕ, ◌≡◌, ◌≢◌, ◌⊎◌, inl, inr, refl, sym, arith, List, [], ◌∷◌, ◌++◌, true, false, Option, none,
  some, ◌==◌, ◌||◌, ◌&&◌, Bool-cases, if_both, ==→eq, ==→ne,
}
use ufp_ffu_device_efi.Word.{u32}
use ufp_ffu_device_efi.Bytes.{byte, rd_le16, rd_le32, rd_le64}
use ufp_ffu_device_efi.Efi.{is_error, efi_success, efi_aborted}
use ufp_ffu_device_efi.Usb.{UsbTransport, UsbSetupPacket, Control, handle_setup}
use ufp_ffu_device_efi.Usb.Pump.{
  UsbEvent, Pumped, returned, waiting, ends_pump, take_event, pump_events, usb_transport_recv,
}

-- An event that ends the wait for a message, with the status and the number of bytes: an error of
-- EventHandler, or a transfer that ended on the bulk OUT endpoint, complete or not.
pub data EndsReceive : UsbEvent → ℕ → ℕ → Type 0 where
  failed : {e : UsbEvent} → is_error e.status ≡ true → EndsReceive e e.status 0
  complete :
      {e : UsbEvent}
      → is_error e.status ≡ false
      → e.msg ≡ 2
      → byte e.result 12 ≡ 1
      → rd_le32 e.result 8 ≡ 1
      → EndsReceive e efi_success (rd_le64 e.result 0)
  incomplete :
      {e : UsbEvent}
      → is_error e.status ≡ false
      → e.msg ≡ 2
      → byte e.result 12 ≡ 1
      → rd_le32 e.result 8 ≢ 1
      → EndsReceive e efi_aborted 0

-- The setup packet of an event.
abbrev pub packet_of : UsbEvent → UsbSetupPacket
packet_of e = record {
  request_type = byte e.result 0;
  request = byte e.result 1;
  value = rd_le16 e.result 2;
  index = rd_le16 e.result 4;
  length' = rd_le16 e.result 6;
}

-- An event that does not end it, with what is done on the control endpoint and the transport after
-- it: a setup packet, a new speed, a detach, a reset, a transfer that ended on another endpoint, and
-- the messages that nothing is done for.
pub data Passes : UsbEvent → UsbTransport → List Control → UsbTransport → Type 0 where
  setup :
      {e : UsbEvent} {usb : UsbTransport}
      → is_error e.status ≡ false
      → e.msg ≡ 1
      → Passes e usb ((handle_setup (packet_of e) usb).0 ∷ []) ((handle_setup (packet_of e) usb).1)
  new_speed :
      {e : UsbEvent} {usb : UsbTransport}
      → is_error e.status ≡ false
      → e.msg ≡ 9
      → Passes e usb [] (record usb { speed = u32 (rd_le64 e.result 0) })
  detached :
      {e : UsbEvent} {usb : UsbTransport}
      → is_error e.status ≡ false
      → e.msg ≡ 4
      → Passes e usb [] (record usb { configured = 0 })
  reset :
      {e : UsbEvent} {usb : UsbTransport}
      → is_error e.status ≡ false
      → e.msg ≡ 6
      → Passes e usb [] (record usb { configured = 0 })
  elsewhere :
      {e : UsbEvent} {usb : UsbTransport}
      → is_error e.status ≡ false
      → e.msg ≡ 2
      → byte e.result 12 ≢ 1
      → Passes e usb [] usb
  ignored :
      {e : UsbEvent} {usb : UsbTransport}
      → is_error e.status ≡ false
      → e.msg ≢ 1
      → e.msg ≢ 2
      → e.msg ≢ 4
      → e.msg ≢ 6
      → e.msg ≢ 9
      → Passes e usb [] usb

-- The wait over the events; the list is what was done on the control endpoint before.
pub data Receives : List UsbEvent → List Control → UsbTransport → Pumped → Type 0 where
  waits : {done : List Control} {usb : UsbTransport} → Receives [] done usb (waiting done usb)
  ends :
      {e : UsbEvent} {rest : List UsbEvent} {done : List Control} {usb : UsbTransport}
      {status bytes : ℕ}
      → EndsReceive e status bytes
      → Receives (e ∷ rest) done usb (returned status bytes done usb rest)
  passes :
      {e : UsbEvent} {rest : List UsbEvent} {done controls : List Control} {usb usb' : UsbTransport}
      {p : Pumped}
      → Passes e usb controls usb'
      → Receives rest (done ++ controls) usb' p
      → Receives (e ∷ rest) done usb p

-- An event either ends the wait or has its effect, as the loop takes it.
abbrev Handled : UsbEvent → UsbTransport → Option (ℕ × ℕ) → List Control × UsbTransport → Type 0
Handled e usb none (controls, usb') = Passes e usb controls usb'
Handled e usb (some (status, bytes)) effect = EndsReceive e status bytes

module _ (e : UsbEvent) (usb : UsbTransport) (well : is_error e.status ≡ false) where
  abbrev Effect : List Control × UsbTransport → Type 0
  Effect (controls, usb') = Passes e usb controls usb'

  -- An event that is not the end of a transfer to the host's side of the endpoint.
  take_event-Passes : e.msg ≢ 2 → Effect (take_event e usb)
  unfolding take_event
  take_event-Passes no_transfer =
      if_both Effect (e.msg == 1) (λ h. setup well (==→eq e.msg 1 h))
        (λ not_setup.
          if_both Effect (e.msg == 9) (λ h. new_speed well (==→eq e.msg 9 h))
            (λ not_speed. if_both Effect (e.msg == 4 || e.msg == 6) gone (λ none.
              ignored well (==→ne e.msg 1 not_setup) no_transfer (ground arith) (ground arith)
                (==→ne e.msg 9 not_speed))))
    where
      gone : (e.msg == 4 || e.msg == 6) ≡ true → Effect ([], record usb { configured = 0 })
      gone h = elim (Bool-cases (e.msg == 4)) [
        | inl is_detach ↦ detached well (==→eq e.msg 4 is_detach)
        | inr not_detach ↦ reset well (ground arith)
      ]

  -- The end of a transfer on another endpoint.
  take_event-elsewhere : e.msg ≡ 2 → byte e.result 12 ≢ 1 → Effect (take_event e usb)
  unfolding take_event
  take_event-elsewhere transfer other =
      let nothing : take_event e usb ≡ ([], usb) = ground arith in
      subst Effect (sym nothing) (elsewhere well transfer other)

-- An event either ends the wait or has its effect, as the loop takes it.
abbrev Handles : UsbEvent → UsbTransport → Option (ℕ × ℕ) → Type 0
Handles e usb none = Passes e usb ((take_event e usb).0) ((take_event e usb).1)
Handles e usb (some (status, bytes)) = EndsReceive e status bytes

ends_pump-Handles : (e : UsbEvent) (usb : UsbTransport) → Handles e usb (ends_pump true false e)
unfolding ends_pump
ends_pump-Handles e usb = if_both (Handles e usb) (is_error e.status) failed (λ well.
    if_both (Handles e usb) (e.msg == 2 && true)
      (λ h.
        let transfer : e.msg ≡ 2 = ground arith in
        if_both (Handles e usb) (byte e.result 12 == 1)
          (λ bulk.
            let on_bulk : byte e.result 12 ≡ 1 = ==→eq (byte e.result 12) 1 bulk in
            if_both (Handles e usb) (rd_le32 e.result 8 == 1)
              (λ whole. complete well transfer on_bulk (==→eq (rd_le32 e.result 8) 1 whole))
              (λ part. incomplete well transfer on_bulk (==→ne (rd_le32 e.result 8) 1 part)))
          (λ other. take_event-elsewhere e usb well transfer (==→ne (byte e.result 12) 1 other)))
      (λ h.
        if_both (Handles e usb) (e.msg == 3 && false) (λ g. absurd (ground arith))
          (λ _. take_event-Passes e usb well (ground arith))))

pump_events-step :
    (e : UsbEvent) (es : List UsbEvent) (done : List Control) (usb : UsbTransport)
    → ((controls : List Control) (usb' : UsbTransport)
        → Receives es (done ++ controls) usb' (pump_events true false es (done ++ controls) usb'))
    → Receives (e ∷ es) done usb (pump_events true false (e ∷ es) done usb)
unfolding pump_events
pump_events-step e es done usb rest = go (ends_pump true false e) refl
  where
    go :
        (o : Option (ℕ × ℕ))
        → ends_pump true false e ≡ o
        → Receives (e ∷ es) done usb (pump_events true false (e ∷ es) done usb)
    go none h =
        rw (h, pump_events)
          (passes (subst (Handles e usb) h (ends_pump-Handles e usb))
            (rest (take_event e usb).0 (take_event e usb).1))
    go (some (status, bytes)) h =
        rw (h, pump_events) (ends (subst (Handles e usb) h (ends_pump-Handles e usb)))

pump_events-Receives :
    (es : List UsbEvent) (done : List Control) (usb : UsbTransport)
    → Receives es done usb (pump_events true false es done usb)
unfolding pump_events
pump_events-Receives [] done usb = waits
pump_events-Receives (e ∷ es) done usb =
    pump_events-step e es done usb
      (λ controls usb'. pump_events-Receives es (done ++ controls) usb')

-- Whatever the events: when asking for a message fails, its status is returned and no event is
-- taken; otherwise the events are taken in turn, each that does not end the wait having its effect,
-- up to the first that ends it, whose status and number of bytes are returned with the events behind
-- it left, and without one the wait goes on.
pub usb_transport_recv-Receives :
    (armed : ℕ) (es : List UsbEvent) (usb : UsbTransport)
    → ((is_error armed ≡ true) × (usb_transport_recv armed es usb ≡ returned armed 0 [] usb es))
      ⊎ ((is_error armed ≡ false) × Receives es [] usb (usb_transport_recv armed es usb))
unfolding usb_transport_recv
usb_transport_recv-Receives armed es usb = elim (Bool-cases (is_error armed)) [
  | inl failing ↦ inl (failing, rw failing refl)
  | inr fine ↦ inr (fine, rw fine (pump_events-Receives es [] usb))
]
