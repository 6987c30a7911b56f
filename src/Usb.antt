-- ===== src/Usb.antt =====
-- The USB function transport of src/src/usb_transport.c: its state, and what it answers to a setup
-- packet. The firmware's structs are the bytes of them, lowest first.
use Prim.Native.Nat.{bit_and}
use ufp_ffu_device_efi.Prelude.{
  ℕ, zero, suc, ◌+◌, ◌*◌, ◌/◌, ◌%◌, List, [], ◌∷◌, ◌++◌, Bool, true, false, ltb, ◌==◌, ◌!=◌, ◌||◌,
  ◌&&◌, if◌then◌else◌, length, take, replicate,
}
use ufp_ffu_device_efi.Word.{u8}
pub mod Setup
pub mod Pump
pub mod Events
pub mod Open
pub mod Holdings
pub mod Buffers
mod Tests

-- USB_TRANSPORT, without the buffers and the protocol.
pub record UsbTransport : Type 0 where
  pub speed : ℕ
  pub configured : ℕ
  pub max_transfer : ℕ

-- USB_SETUP_PACKET.
pub record UsbSetupPacket : Type 0 where
  pub request_type : ℕ
  pub request : ℕ
  pub value : ℕ
  pub index : ℕ
  pub length' : ℕ

-- What is done on the control endpoint: bytes are sent, a status stage in one direction or the
-- other, or a stall in the direction of the request.
pub data Control : Type 0 where
  control_in : List ℕ → Control
  status_in : Control
  status_out : Control
  stall : Bool → Control

abbrev pub device_desc : List ℕ
device_desc = 18 ∷ 1 ∷ 0 ∷ 2 ∷ 0xff ∷ 0 ∷ 0 ∷ 64 ∷ 0x5e ∷ 4 ∷ 0x2a ∷ 6 ∷ 0 ∷ 1 ∷ 1 ∷ 2 ∷ 3 ∷ 1 ∷ []

abbrev pub config_desc : List ℕ
config_desc = 9 ∷ 2 ∷ 32 ∷ 0 ∷ 1 ∷ 1 ∷ 0 ∷ 0x80 ∷ 250 ∷ []

abbrev pub interface_desc : List ℕ
interface_desc = 9 ∷ 4 ∷ 0 ∷ 0 ∷ 2 ∷ 0xff ∷ 0x42 ∷ 1 ∷ 0 ∷ []

-- An endpoint's descriptor, by its address.
abbrev pub endpoint_desc : ℕ → List ℕ
endpoint_desc address = 7 ∷ 5 ∷ address ∷ 2 ∷ 0 ∷ 2 ∷ 0 ∷ []

abbrev pub bos_desc : List ℕ
bos_desc =
    5 ∷ 15 ∷ 22 ∷ 0 ∷ 1 ∷ 7 ∷ 16 ∷ 2 ∷ 2 ∷ 0 ∷ 0 ∷ 0 ∷ 10 ∷ 16 ∷ 3 ∷ 0 ∷ 14 ∷ 0 ∷ 1 ∷ 10 ∷ 0xff ∷ 7
    ∷ []

-- The characters in UTF-16.
unfoldable pub wide : List ℕ → List ℕ
wide [] = []
wide (c ∷ cs) = u8 c ∷ 0 ∷ wide cs

abbrev pub ms_os_string : List ℕ
ms_os_string = 18 ∷ 3 ∷ wide (b'M' ∷ b'S' ∷ b'F' ∷ b'T' ∷ b'1' ∷ b'0' ∷ b'0' ∷ []) ++ 0xaa ∷ 0 ∷ []

abbrev pub ms_compat_id : List ℕ
ms_compat_id =
    0x28
    ∷ 0
    ∷ 0
    ∷ 0
    ∷ 0
    ∷ 1
    ∷ 4
    ∷ 0
    ∷ 1
    ∷ 0
    ∷ 0
    ∷ 0
    ∷ 0
    ∷ 0
    ∷ 0
    ∷ 0
    ∷ 0
    ∷ 1
    ∷ b'W'
    ∷ b'I'
    ∷ b'N'
    ∷ b'U'
    ∷ b'S'
    ∷ b'B'
    ∷ replicate 16 0

-- The two bytes, or four, of a number, lowest first.
unfoldable pub put_le16 : ℕ → List ℕ
put_le16 v = u8 v ∷ u8 (v / 256) ∷ []

unfoldable pub put_le32 : ℕ → List ℕ
put_le32 v = u8 v ∷ u8 (v / 256) ∷ u8 (v / 65536) ∷ u8 (v / 16777216) ∷ []

-- `put_utf16_ascii`: so many characters of the string, and zeros behind its end.
unfoldable pub put_utf16_ascii : List ℕ → ℕ → List ℕ
put_utf16_ascii s zero = []
put_utf16_ascii [] (suc n) = 0 ∷ 0 ∷ put_utf16_ascii [] n
put_utf16_ascii (c ∷ cs) (suc n) = u8 c ∷ 0 ∷ put_utf16_ascii cs n

-- "DeviceInterfaceGUID" and the GUID.
abbrev pub interface_guid_name : List ℕ
interface_guid_name =
    (b'D' ∷ b'e' ∷ b'v' ∷ b'i' ∷ b'c' ∷ b'e' ∷ [])
    ++ (b'I' ∷ b'n' ∷ b't' ∷ b'e' ∷ b'r' ∷ b'f' ∷ b'a' ∷ b'c' ∷ b'e' ∷ [])
    ++ (b'G' ∷ b'U' ∷ b'I' ∷ b'D' ∷ [])

abbrev pub interface_guid : List ℕ
interface_guid =
    (b'{' ∷ b'8' ∷ b'F' ∷ b'E' ∷ b'6' ∷ b'D' ∷ b'4' ∷ b'D' ∷ b'7' ∷ b'-' ∷ [])
    ++ (b'4' ∷ b'9' ∷ b'D' ∷ b'D' ∷ b'-' ∷ b'4' ∷ b'1' ∷ b'E' ∷ b'7' ∷ b'-' ∷ [])
    ++ (b'9' ∷ b'4' ∷ b'8' ∷ b'6' ∷ b'-' ∷ b'4' ∷ b'9' ∷ b'A' ∷ b'F' ∷ b'C' ∷ [])
    ++ (b'6' ∷ b'B' ∷ b'F' ∷ b'E' ∷ b'4' ∷ b'7' ∷ b'5' ∷ b'}' ∷ [])

unfoldable pub ms_ext_props : List ℕ
ms_ext_props =
    put_le32 142
    ++ put_le16 0x100
    ++ put_le16 5
    ++ put_le16 1
    ++ put_le32 132
    ++ put_le32 1
    ++ put_le16 40
    ++ put_utf16_ascii interface_guid_name 20
    ++ put_le32 78
    ++ put_utf16_ascii interface_guid 39

-- The bytes of a string descriptor, of 60 characters at most.
unfoldable pub make_string_desc : List ℕ → List ℕ
make_string_desc s =
    let n = if ltb (length s) 60 then length s else 60 in
    take (u8 (2 + n * 2)) (u8 (2 + n * 2) ∷ 3 ∷ wide (take n s))

unfoldable pub make_config_desc : List ℕ
make_config_desc = config_desc ++ interface_desc ++ endpoint_desc 1 ++ endpoint_desc 0x81

unfoldable pub usb_send_control : List ℕ → ℕ → Control
usb_send_control bytes req_len =
    control_in (take (if ltb (length bytes) req_len then length bytes else req_len) bytes)

unfoldable pub usb_stall_ep0 : UsbSetupPacket → Control
usb_stall_ep0 setup = stall (bit_and setup.request_type 0x80 != 0)

abbrev pub microsoft : List ℕ
microsoft = b'M' ∷ b'i' ∷ b'c' ∷ b'r' ∷ b'o' ∷ b's' ∷ b'o' ∷ b'f' ∷ b't' ∷ []

abbrev pub product : List ℕ
product =
    b'U' ∷ b'F' ∷ b'P' ∷ 0x20 ∷ b'F' ∷ b'F' ∷ b'U' ∷ 0x20 ∷ b'F' ∷ b'l' ∷ b'a' ∷ b's' ∷ b'h' ∷ []

abbrev pub serial : List ℕ
serial = b'0' ∷ b'0' ∷ b'0' ∷ b'1' ∷ []

-- The string descriptors by their index.
unfoldable pub get_string : UsbSetupPacket → ℕ → Control
get_string setup dindex =
    if dindex == 0
    then usb_send_control (4 ∷ 3 ∷ 9 ∷ 4 ∷ []) setup.length'
    else if dindex == 1
    then usb_send_control (make_string_desc microsoft) setup.length'
    else if dindex == 2
    then usb_send_control (make_string_desc product) setup.length'
    else if dindex == 3
    then usb_send_control (make_string_desc serial) setup.length'
    else if dindex == 0xee
    then usb_send_control ms_os_string setup.length'
    else usb_stall_ep0 setup

-- GET_DESCRIPTOR.
unfoldable pub get_descriptor : UsbSetupPacket → Control
get_descriptor setup =
    let dtype = u8 (setup.value / 256) in
    if dtype == 1
    then usb_send_control device_desc setup.length'
    else if dtype == 2
    then usb_send_control make_config_desc setup.length'
    else if dtype == 15
    then usb_send_control bos_desc setup.length'
    else if dtype == 3
    then get_string setup (u8 setup.value)
    else usb_stall_ep0 setup

-- The vendor's requests.
unfoldable pub get_vendor : UsbSetupPacket → Control
get_vendor setup =
    if setup.index == 4
    then usb_send_control ms_compat_id setup.length'
    else if setup.index == 5
    then usb_send_control ms_ext_props setup.length'
    else usb_stall_ep0 setup

-- Behind the switch.
unfoldable pub other_request : UsbSetupPacket → Control
other_request setup =
    if bit_and setup.request_type 0x80 == 0 then status_out else usb_stall_ep0 setup

-- The switch over the standard requests.
unfoldable pub standard_request : UsbSetupPacket → UsbTransport → Control × UsbTransport
standard_request setup usb =
    let r = setup.request in
    if r == 9
    then (status_in, record usb { configured = if setup.value == 0 then 0 else 1 })
    else if r == 8
    then (usb_send_control ((if usb.configured == 0 then 0 else 1) ∷ []) setup.length', usb)
    else if r == 0
    then (usb_send_control (0 ∷ 0 ∷ []) setup.length', usb)
    else if r == 5 || (r == 1 || (r == 3 || r == 11))
    then (status_in, usb)
    else if r == 10
    then (usb_send_control (0 ∷ []) setup.length', usb)
    else (other_request setup, usb)

unfoldable pub handle_setup : UsbSetupPacket → UsbTransport → Control × UsbTransport
handle_setup setup usb =
    let kind = bit_and setup.request_type 0x60 in
    if kind == 0 && setup.request == 6
    then (get_descriptor setup, usb)
    else if kind == 0x40 && setup.request == 0xaa
    then (get_vendor setup, usb)
    else if kind == 0
    then standard_request setup usb
    else (other_request setup, usb)
