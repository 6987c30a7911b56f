-- ===== src/Usb/Buffers.antt =====
-- The buffers of the transport of src/src/usb_transport.c: who holds which after the calls of
-- `usb_transport_open`.
use ufp_ffu_device_efi.Prelude.{
  ℕ, ◌≡◌, ◌⊎◌, inl, inr, refl, sym, ap, ◌∙◌, arith, List, [], ◌∷◌, ◌++◌, Bool, true, false, Option,
  none, some, ◌||◌, not, if◌then◌else◌, if_both,
}
use ufp_ffu_device_efi.Efi.{is_error}
use ufp_ffu_device_efi.Usb.Holdings.{
  Holding, empty, from, held, after, present, held-append, closes,
}
use ufp_ffu_device_efi.Usb.Open.{
  UsbFirmware, Allocator, transfer, boot, UsbCall, got_rx, got_tx, started, configured, freed_by,
  transfer_size, usb_transport_close, open_endpoints, open_controller, open_buffers,
  usb_transport_open,
}

-- Whether there is an AllocateTransferBuffer, and where the buffers come from.
abbrev pub allocates : UsbFirmware → Bool
allocates fw = elim fw.allocate_transfer_buffer [ none ↦ false | some statuses ↦ true ]

abbrev pub obtained_by : UsbFirmware → Allocator
obtained_by fw = elim fw.allocate_transfer_buffer [ none ↦ boot | some statuses ↦ transfer ]

-- A success with both buffers held, which closing gives back, or an error with every buffer given
-- back to the allocator that it came from.
abbrev pub OpensOrFrees : UsbFirmware → ℕ × List UsbCall → Type 0
OpensOrFrees fw (status, calls) =
    ((is_error status ≡ false)
      × (held calls empty empty ≡ (from (obtained_by fw), from (obtained_by fw)))
      × (held (calls ++ usb_transport_close fw true true) empty empty ≡ (empty, empty)))
    ⊎ ((is_error status ≡ true) × (held calls empty empty ≡ (empty, empty)))

-- The same, with the allocator that closing gives the buffers to.
abbrev HoldsOrFrees : UsbFirmware → ℕ × List UsbCall → Type 0
HoldsOrFrees fw (status, calls) =
    ((is_error status ≡ false)
      × (held calls empty empty ≡ (from (freed_by fw), from (freed_by fw))))
    ⊎ ((is_error status ≡ true) × (held calls empty empty ≡ (empty, empty)))

module _ (fw : UsbFirmware) where
  -- Closing after calls that have left these buffers.
  closed :
      (calls : List UsbCall) (rx tx : Bool)
      → after calls ≡ (present (freed_by fw) rx, present (freed_by fw) tx)
      → after (calls ++ usb_transport_close fw rx tx) ≡ (empty, empty)
  unfolding usb_transport_close
  closed calls rx tx h =
      held-append calls (usb_transport_close fw rx tx) empty empty
      ∙ ap (λ (b : Holding × Holding). held (usb_transport_close fw rx tx) b.0 b.1) h
      ∙ closes fw.has_abort fw.has_stop (freed_by fw) rx tx

  -- Both buffers are there, from the allocator that closing will give them to.
  abbrev Both : List UsbCall → Type 0
  Both calls = after calls ≡ (from (freed_by fw), from (freed_by fw))

  open_endpoints-HoldsOrFrees :
      (calls : List UsbCall) → Both calls → HoldsOrFrees fw (open_endpoints fw calls)
  unfolding open_endpoints
  open_endpoints-HoldsOrFrees calls h =
      if_both (HoldsOrFrees fw) (is_error fw.configure_endpoints)
        (λ e. inr (e, closed calls true true h))
        (λ _. inl (refl, held-append calls (configured ∷ []) empty empty ∙ h))

  open_controller-HoldsOrFrees :
      (calls : List UsbCall) → Both calls → HoldsOrFrees fw (open_controller fw calls)
  unfolding open_controller
  open_controller-HoldsOrFrees calls h = go fw.start_controller refl
    where
      go : (o : Option ℕ) → fw.start_controller ≡ o → HoldsOrFrees fw (open_controller fw calls)
      go none e = rw (e, open_controller) (open_endpoints-HoldsOrFrees calls h)
      go (some status) e =
          rw (e, open_controller)
            (if_both (HoldsOrFrees fw) (is_error status)
              (λ failed. inr (failed, closed calls true true h))
              (λ _.
                open_endpoints-HoldsOrFrees (calls ++ started ∷ [])
                  (held-append calls (started ∷ []) empty empty ∙ h)))

  -- Both are there after these calls, if the allocator is the right one.
  both : (a : Allocator) (size : ℕ) → freed_by fw ≡ a → Both (got_rx a size ∷ got_tx a size ∷ [])
  both a size e = ap (λ b. (from b, from b)) (sym e)

  -- The buffers of `uefi_alloc`, of which those that are there are given back.
  obtained :
      (size : ℕ) (rx tx : Bool)
      → freed_by fw ≡ boot
      → after
          ((if rx then got_rx boot size ∷ [] else []) ++ (if tx then got_tx boot size ∷ [] else []))
        ≡ (present (freed_by fw) rx, present (freed_by fw) tx)
  obtained size true true e = ap (λ b. (from b, from b)) (sym e)
  obtained size true false e = ap (λ b. (from b, empty)) (sym e)
  obtained size false true e = ap (λ b. (empty, from b)) (sym e)
  obtained size false false e = refl

  open_buffers-HoldsOrFrees :
      (size : ℕ) → freed_by fw ≡ obtained_by fw → HoldsOrFrees fw (open_buffers fw size)
  unfolding open_buffers
  open_buffers-HoldsOrFrees size freed = go fw.allocate_transfer_buffer refl
    where
      go :
          (o : Option (ℕ × ℕ))
          → fw.allocate_transfer_buffer ≡ o
          → HoldsOrFrees fw (open_buffers fw size)
      go none e =
          let by_boot : freed_by fw ≡ boot = freed ∙ rw e refl in
          rw (e, open_buffers)
            (if_both (HoldsOrFrees fw) (not fw.alloc_rx || not fw.alloc_tx)
              (λ _. inr (
                refl,
                closed
                    ((if fw.alloc_rx then got_rx boot size ∷ [] else [])
                      ++ (if fw.alloc_tx then got_tx boot size ∷ [] else []))
                    fw.alloc_rx fw.alloc_tx (obtained size fw.alloc_rx fw.alloc_tx by_boot),
              ))
              (λ _.
                open_controller-HoldsOrFrees (got_rx boot size ∷ got_tx boot size ∷ [])
                  (both boot size by_boot)))
      go (some (for_rx, for_tx)) e =
          let by_transfer : freed_by fw ≡ transfer = freed ∙ rw e refl in
          rw (e, open_buffers)
            (if_both (HoldsOrFrees fw) (is_error for_rx) (λ failed. inr (failed, refl))
              (λ _.
                if_both (HoldsOrFrees fw) (is_error for_tx)
                  (λ failed. inr (
                    failed,
                    closed (got_rx transfer size ∷ []) true false
                        (ap (λ b. (from b, empty)) (sym by_transfer)),
                  ))
                  (λ _.
                    open_controller-HoldsOrFrees (got_rx transfer size ∷ got_tx transfer size ∷ [])
                      (both transfer size by_transfer))))

  located :
      (is_error fw.located || not fw.has_io) ≡ true
      → (is_error fw.located ≡ true) ⊎ (fw.has_io ≡ true)
      → is_error fw.located ≡ true
  located e (inl failed) = failed
  located e (inr has) = ground arith

  freed_by-obtained_by : fw.has_free ≡ allocates fw → freed_by fw ≡ obtained_by fw
  freed_by-obtained_by both_or_none =
      ap (λ b. if b then transfer else boot) both_or_none ∙ go fw.allocate_transfer_buffer
    where
      go :
          (o : Option (ℕ × ℕ))
          → (if (elim o [ none ↦ false | some statuses ↦ true ]) then transfer else boot)
            ≡ (elim o [ none ↦ boot | some statuses ↦ transfer ])
      go none = refl
      go (some statuses) = refl

  HoldsOrFrees-OpensOrFrees :
      (r : ℕ × List UsbCall) → freed_by fw ≡ obtained_by fw → HoldsOrFrees fw r → OpensOrFrees fw r
  HoldsOrFrees-OpensOrFrees (status, calls) same (inl (fine, holds)) =
      inl (fine, holds ∙ ap (λ a. (from a, from a)) same, closed calls true true holds)
  HoldsOrFrees-OpensOrFrees (status, calls) same (inr failed) = inr failed

  usb_transport_open-HoldsOrFrees :
      (is_error fw.located ≡ true) ⊎ (fw.has_io ≡ true)
      → freed_by fw ≡ obtained_by fw
      → HoldsOrFrees fw (usb_transport_open fw)
  unfolding usb_transport_open
  usb_transport_open-HoldsOrFrees there freed =
      if_both (HoldsOrFrees fw) (not fw.has_locate) (λ _. inr (refl, refl))
        (λ _.
          if_both (HoldsOrFrees fw) (is_error fw.located || not fw.has_io)
            (λ e. inr (located e there, refl))
            (λ _. open_buffers-HoldsOrFrees (transfer_size fw.max_transfer_size) freed))

  -- When LocateProtocol fails or gives an interface that is not null, and there is a
  -- FreeTransferBuffer exactly when there is an AllocateTransferBuffer, opening ends either in a
  -- success, with both buffers held and given back by a close that follows, or in an error, with
  -- every buffer that was obtained given back, once, to the allocator it came from.
  pub usb_transport_open-OpensOrFrees :
      (is_error fw.located ≡ true) ⊎ (fw.has_io ≡ true)
      → fw.has_free ≡ allocates fw
      → OpensOrFrees fw (usb_transport_open fw)
  usb_transport_open-OpensOrFrees there both_or_none =
      let same = freed_by-obtained_by both_or_none in
      HoldsOrFrees-OpensOrFrees (usb_transport_open fw) same
        (usb_transport_open-HoldsOrFrees there same)
