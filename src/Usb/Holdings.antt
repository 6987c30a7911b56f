-- ===== src/Usb/Holdings.antt =====
-- The buffers of the transport of src/src/usb_transport.c: who holds which after the calls.
use ufp_ffu_device_efi.Prelude.{◌≡◌, refl, List, [], ◌∷◌, ◌++◌, Bool, true, false, if◌then◌else◌}
use ufp_ffu_device_efi.Usb.Open.{
  Allocator, transfer, boot, UsbCall, got_rx, got_tx, started, configured, abort_out, abort_in,
  stopped, free_rx, free_tx,
}

-- A buffer is not there, was obtained from an allocator, or was given to an allocator that it was
-- not obtained from, or given back twice.
pub data Holding : Type 0 where
  empty : Holding
  from : Allocator → Holding
  broken : Holding

abbrev pub obtain : Allocator → Holding → Holding
obtain a empty = from a
obtain a (from b) = broken
obtain a broken = broken

abbrev pub give_back : Allocator → Holding → Holding
give_back a empty = broken
give_back transfer (from transfer) = empty
give_back boot (from boot) = empty
give_back transfer (from boot) = broken
give_back boot (from transfer) = broken
give_back a broken = broken

-- The two buffers after the calls.
abbrev pub held : List UsbCall → Holding → Holding → Holding × Holding
held [] rx tx = (rx, tx)
held (got_rx a size ∷ calls) rx tx = held calls (obtain a rx) tx
held (got_tx a size ∷ calls) rx tx = held calls rx (obtain a tx)
held (free_rx a ∷ calls) rx tx = held calls (give_back a rx) tx
held (free_tx a ∷ calls) rx tx = held calls rx (give_back a tx)
held (started ∷ calls) rx tx = held calls rx tx
held (configured ∷ calls) rx tx = held calls rx tx
held (abort_out ∷ calls) rx tx = held calls rx tx
held (abort_in ∷ calls) rx tx = held calls rx tx
held (stopped ∷ calls) rx tx = held calls rx tx

abbrev pub after : List UsbCall → Holding × Holding
after calls = held calls empty empty

-- A buffer of that allocator, if it is there.
abbrev pub present : Allocator → Bool → Holding
present a true = from a
present a false = empty

pub held-append :
    (a b : List UsbCall) (rx tx : Holding)
    → held (a ++ b) rx tx ≡ held b (held a rx tx).0 (held a rx tx).1
held-append [] b rx tx = refl
held-append (got_rx c size ∷ a) b rx tx = held-append a b (obtain c rx) tx
held-append (got_tx c size ∷ a) b rx tx = held-append a b rx (obtain c tx)
held-append (free_rx c ∷ a) b rx tx = held-append a b (give_back c rx) tx
held-append (free_tx c ∷ a) b rx tx = held-append a b rx (give_back c tx)
held-append (started ∷ a) b rx tx = held-append a b rx tx
held-append (configured ∷ a) b rx tx = held-append a b rx tx
held-append (abort_out ∷ a) b rx tx = held-append a b rx tx
held-append (abort_in ∷ a) b rx tx = held-append a b rx tx
held-append (stopped ∷ a) b rx tx = held-append a b rx tx

frees :
    (a : Allocator) (rx tx : Bool)
    → held
        ((if rx then free_rx a ∷ [] else []) ++ (if tx then free_tx a ∷ [] else []))
        (present a rx)
        (present a tx)
      ≡ (empty, empty)
frees transfer true true = refl
frees transfer true false = refl
frees transfer false true = refl
frees transfer false false = refl
frees boot true true = refl
frees boot true false = refl
frees boot false true = refl
frees boot false false = refl

-- Closing gives back what is held.
pub closes :
    (abort stop : Bool) (a : Allocator) (rx tx : Bool)
    → held
        ((if abort then abort_out ∷ abort_in ∷ [] else [])
          ++ (if stop then stopped ∷ [] else [])
          ++ (if rx then free_rx a ∷ [] else [])
          ++ (if tx then free_tx a ∷ [] else []))
        (present a rx)
        (present a tx)
      ≡ (empty, empty)
closes true true a rx tx = frees a rx tx
closes true false a rx tx = frees a rx tx
closes false true a rx tx = frees a rx tx
closes false false a rx tx = frees a rx tx
