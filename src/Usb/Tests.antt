-- ===== src/Usb/Tests.antt =====
-- Runs of the transport of src/src/usb_transport.c.
use ufp_ffu_device_efi.Prelude.{
  ◌≡◌, refl, [], ◌∷◌, ◌++◌, true, false, none, ◌⊎◌, inr, length, replicate,
}
use ufp_ffu_device_efi.Bytes.{rd_le32, rd_le64, le32}
use ufp_ffu_device_efi.Efi.{is_error, efi_success}
use ufp_ffu_device_efi.Usb.{
  UsbTransport, UsbSetupPacket, control_in, ms_ext_props, put_le16, put_le32, put_utf16_ascii,
  make_config_desc, config_desc, usb_send_control, get_descriptor, handle_setup,
}
use ufp_ffu_device_efi.Usb.Setup.{Settles, handle_setup-Settles}
use ufp_ffu_device_efi.Usb.Pump.{
  UsbEvent, returned, ends_pump, take_event, pump_events, usb_transport_recv,
}
use ufp_ffu_device_efi.Usb.Open.{UsbFirmware, usb_transport_open}
use ufp_ffu_device_efi.Usb.Buffers.{OpensOrFrees, usb_transport_open-OpensOrFrees}
use ufp_ffu_device_efi.Usb.Events.{Receives, usb_transport_recv-Receives}

abbrev plugged : UsbTransport
plugged = record { speed = 0; configured = 1; max_transfer = 0x1000 }

-- A host that asks for the first nine bytes of the configuration.
abbrev get_config : UsbSetupPacket
get_config = record { request_type = 0x80; request = 6; value = 0x200; index = 0; length' = 9 }

config : handle_setup get_config plugged ≡ (control_in config_desc, plugged)
unfolding handle_setup get_descriptor usb_send_control make_config_desc
config = refl

props_length : length ms_ext_props ≡ 142
unfolding ms_ext_props put_le16 put_le32 put_utf16_ascii
props_length = refl

handle_setup-Settles_example : Settles get_config plugged (handle_setup get_config plugged)
handle_setup-Settles_example = handle_setup-Settles get_config plugged

-- A bus reset, then 16 bytes on the bulk endpoint.
abbrev reset : UsbEvent
reset = record { status = 0; msg = 6; result = replicate 16 0 }

abbrev received : UsbEvent
received = record {
  status = 0;
  msg = 2;
  result = 16 ∷ replicate 7 0 ++ 1 ∷ replicate 3 0 ++ 1 ∷ replicate 3 0;
}

usb_transport_recv-Receives_example :
    ((is_error 0 ≡ true)
      × (usb_transport_recv 0 (reset ∷ received ∷ []) plugged
          ≡ returned 0 0 [] plugged (reset ∷ received ∷ [])))
    ⊎ ((is_error 0 ≡ false)
        × Receives
            (reset ∷ received ∷ [])
            []
            plugged
            (usb_transport_recv 0 (reset ∷ received ∷ []) plugged))
usb_transport_recv-Receives_example = usb_transport_recv-Receives 0 (reset ∷ received ∷ []) plugged

received_16 :
    usb_transport_recv 0 (reset ∷ received ∷ []) plugged
    ≡ returned efi_success 16 [] (record plugged { configured = 0 }) []
unfolding usb_transport_recv pump_events ends_pump take_event rd_le64 rd_le32 le32
received_16 = refl

-- A firmware without the optional functions, whose second buffer is not allocated.
abbrev short_of_memory : UsbFirmware
short_of_memory = record {
  has_locate = true;
  located = 0;
  has_io = true;
  max_transfer_size = none;
  allocate_transfer_buffer = none;
  alloc_rx = true;
  alloc_tx = false;
  start_controller = none;
  configure_endpoints = 0;
  has_abort = false;
  has_stop = true;
  has_free = false;
}

usb_transport_open-OpensOrFrees_example :
    OpensOrFrees short_of_memory (usb_transport_open short_of_memory)
usb_transport_open-OpensOrFrees_example =
    usb_transport_open-OpensOrFrees short_of_memory (inr refl) refl
