-- ===== src/Usb/Setup.antt =====
-- The answers to setup packets in src/src/usb_transport.c: what is sent fits what the host asked for,
-- and only a request to configure changes the transport.
use ufp_ffu_device_efi.Prelude.{
  ℕ, ◌≤◌, ◌≡◌, ◌≢◌, ◌!=◌, true, false, ◌/◌, ◌⊎◌, inl, inr, ==→eq, refl, arith, List, Bool, ltb,
  ◌==◌, ◌||◌, ◌&&◌, if◌then◌else◌, length, if_both, length-take,
}
use Prim.Native.Nat.{bit_and}
use ufp_ffu_device_efi.Word.{u8}
use ufp_ffu_device_efi.Usb.{
  UsbTransport, UsbSetupPacket, Control, control_in, status_in, status_out, stall, usb_send_control,
  usb_stall_ep0, get_string, get_descriptor, get_vendor, other_request, standard_request,
  handle_setup,
}

-- What is sent is no longer than the host asked for; a status stage from the host is for a request
-- type without bit 7; a stall is of the host-in direction just when that bit is set.
abbrev pub Answers : UsbSetupPacket → Control → Type 0
Answers setup (control_in bytes) = length bytes ≤ setup.length'
Answers setup status_in = Unit {0}
Answers setup status_out = bit_and setup.request_type 0x80 ≡ 0
Answers setup (stall true) = bit_and setup.request_type 0x80 ≢ 0
Answers setup (stall false) = bit_and setup.request_type 0x80 ≡ 0

module _ (setup : UsbSetupPacket) where
  usb_send_control-Answers : (bytes : List ℕ) → Answers setup (usb_send_control bytes setup.length')
  unfolding usb_send_control
  usb_send_control-Answers bytes =
      let short =
        length-take (if ltb (length bytes) setup.length' then length bytes else setup.length')
          bytes in
      ground arith

  usb_stall_ep0-Answers : Answers setup (usb_stall_ep0 setup)
  unfolding usb_stall_ep0
  usb_stall_ep0-Answers = stalls (bit_and setup.request_type 0x80 != 0) refl
    where
      stalls : (b : Bool) → (bit_and setup.request_type 0x80 != 0) ≡ b → Answers setup (stall b)
      stalls true e = λ h. ground arith
      stalls false e = ground arith

  get_string-Answers : (dindex : ℕ) → Answers setup (get_string setup dindex)
  unfolding get_string
  get_string-Answers dindex =
      let sent = usb_send_control-Answers in
      if_both (Answers setup) (dindex == 0) (λ _. sent _)
        (λ _.
          if_both (Answers setup) (dindex == 1) (λ _. sent _)
            (λ _.
              if_both (Answers setup) (dindex == 2) (λ _. sent _)
                (λ _.
                  if_both (Answers setup) (dindex == 3) (λ _. sent _)
                    (λ _.
                      if_both (Answers setup) (dindex == 0xee) (λ _. sent _)
                        (λ _. usb_stall_ep0-Answers)))))

  get_descriptor-Answers : Answers setup (get_descriptor setup)
  unfolding get_descriptor
  get_descriptor-Answers =
      let sent = usb_send_control-Answers in
      let dtype = u8 (setup.value / 256) in
      if_both (Answers setup) (dtype == 1) (λ _. sent _)
        (λ _.
          if_both (Answers setup) (dtype == 2) (λ _. sent _)
            (λ _.
              if_both (Answers setup) (dtype == 15) (λ _. sent _)
                (λ _.
                  if_both (Answers setup) (dtype == 3) (λ _. get_string-Answers (u8 setup.value))
                    (λ _. usb_stall_ep0-Answers))))

  get_vendor-Answers : Answers setup (get_vendor setup)
  unfolding get_vendor
  get_vendor-Answers =
      if_both (Answers setup) (setup.index == 4) (λ _. usb_send_control-Answers _)
        (λ _.
          if_both (Answers setup) (setup.index == 5) (λ _. usb_send_control-Answers _)
            (λ _. usb_stall_ep0-Answers))

  other_request-Answers : Answers setup (other_request setup)
  unfolding other_request
  other_request-Answers =
      if_both (Answers setup) (bit_and setup.request_type 0x80 == 0) (λ out. ground (arith, out))
        (λ _. usb_stall_ep0-Answers)

  -- The answer; and the transport is as it was, or configured by a request to do so.
  abbrev pub Settles : UsbTransport → Control × UsbTransport → Type 0
  Settles usb (control, usb') =
      Answers setup control
      × ((usb' ≡ usb)
          ⊎ ((setup.request ≡ 9)
              × (usb' ≡ record usb { configured = if setup.value == 0 then 0 else 1 })))

  standard_request-Settles : (usb : UsbTransport) → Settles usb (standard_request setup usb)
  unfolding standard_request
  standard_request-Settles usb =
      let r = setup.request in
      if_both (Settles usb) (r == 9) (λ e. (tt, inr (==→eq r 9 e, refl)))
        (λ _.
          if_both (Settles usb) (r == 8) (λ _. (usb_send_control-Answers _, inl refl))
            (λ _.
              if_both (Settles usb) (r == 0) (λ _. (usb_send_control-Answers _, inl refl))
                (λ _.
                  if_both (Settles usb) (r == 5 || (r == 1 || (r == 3 || r == 11)))
                    (λ _. (tt, inl refl))
                    (λ _.
                      if_both (Settles usb) (r == 10) (λ _. (usb_send_control-Answers _, inl refl))
                        (λ _. (other_request-Answers, inl refl))))))

  -- Whatever the setup packet and the state: what is sent is no longer than the host asked for, a
  -- status stage from the host is only for a request type without bit 7, and a stall is that of the
  -- endpoint's host-in direction just when bit 7 of the request type is set; and the transport stays as it is, unless the request is number
  -- 9, SET_CONFIGURATION, which sets or resets `configured` by its value and changes nothing else.
  pub handle_setup-Settles : (usb : UsbTransport) → Settles usb (handle_setup setup usb)
  unfolding handle_setup
  handle_setup-Settles usb =
      let kind = bit_and setup.request_type 0x60 in
      if_both (Settles usb) (kind == 0 && setup.request == 6)
        (λ _. (get_descriptor-Answers, inl refl))
        (λ _.
          if_both (Settles usb) (kind == 0x40 && setup.request == 0xaa)
            (λ _. (get_vendor-Answers, inl refl))
            (λ _.
              if_both (Settles usb) (kind == 0) (λ _. standard_request-Settles usb)
                (λ _. (other_request-Answers, inl refl))))
