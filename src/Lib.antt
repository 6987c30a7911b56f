-- ===== src/Lib.antt =====
-- Verification of the UFP FFU device: a UEFI application that receives an FFU image over USB in the
-- UFP protocol and writes it to a block device.
--
-- Parts and files:
--   Prelude      what the modules share: Boolean tests and lists over the native numbers, and C
--                buffers as lists (`blit` is a copy into a buffer, `slice` one out of it)
--   Word         unsigned words, their wrap-around written out, and bits (include/*.h types)
--   Efi          EFI_STATUS (include/uefi_min.h); `Outcome` for a function that gives a value or a
--                status, `Run` for one that gives a status and leaves an object in some state
--   Bytes        src/uefi_min.c: memcpy, memset, memcmp, rd_*/wr_*, align_up_u64
--   Proto        src/ufp_proto.c: the builders (Build) and parsers (Parse) of frames
--   Ffu          src/ffu.c: ffu_parse_header_bytes. Header has the security and image headers and
--                the validation descriptors, Stores the store loop, Layout the placing of the
--                payload, Parse the whole; the proofs are in Tables, Entries, Scan, Placed,
--                Order, Headers, Plans, Total and Front
--   FfuFile      src/ffu.c: ffu_parse, the same parser over a file, with file_seek,
--                file_read_current and file_read_exact; Stores has the store loop and the whole,
--                Follows and Agree the proofs
--   FlashFile    src/ffu.c: ffu_flash_to_block_io and read_location; Pieces, Bounds and Ends have
--                the proofs
--   Stream       src/ffu.c: ffu_stream_flash_init, _payload and _done. Kept, Ready, Feed, Packets,
--                Device, Entries, Init, Whole, Taken, Early, DryRun, Total and Front have the
--                proofs, Sample a small run
--   PacketPlan   src/ffu.c: ffu_packet_dry_run
--   Secure       src/main.c: the checks on secure-flash messages in usb_secure_flash_loop,
--                send_fs_short and status_from_efi; Assembly has the header buffer and the chunks
--                that are put into it, and Requests, Growth and Chunks have the proofs
--   Frames       src/main.c: the replies as bytes, rd_be64_local, wr_be64_local, status conversions
--   Legacy       src/main.c: handle_legacy_flash
--   Params       src/main.c: handle_read_param and handle_write_param; Table has the parameters
--                whose answer never changes, Variables the handlers of UEFI variables, RoundTrip
--                the proofs
--   Replies      src/main.c: send_v_info_response, handle_get_gpt, handle_unlock, handle_relock,
--                handle_read_empty_log, handle_common_ext and its file requests
--   Loop         src/main.c: usb_secure_flash_loop, its locals and what a message comes to. Flash
--                has the header and payload branches, Async the NOKXFF messages, Dispatch the
--                choice between all messages and the loop; Sent, Started, Session and Whole have
--                the proofs about a whole flash, DryRun, DryAsync and DryMessages those about a dry
--                run, Ends and Complete those about the end of the loop
--   Options      src/main.c: parse_options and token_is_efi_name; src/ffu.c: make_open_path. Words
--                and Ends have the proofs
--   Usb          src/usb_transport.c: the descriptors and handle_setup; Pump has pump_until,
--                usb_transport_recv and _send, Open usb_transport_open and _close; Setup, Events,
--                Holdings and Buffers have the proofs
--   Text         src/uefi_min.c: con_put_dec and con_put_hex; src/main.c: parse_uint_token and the
--                token tests
--
-- A host's requests, built as in Proto, are taken by the loop of Loop.Dispatch, which hands each
-- message to its handler. A secure-flash message passes the checks of Secure, which say where its
-- bytes lie, and a header's chunks are put together by Secure.Assembly. The parser turns a header
-- into a plan; the flasher takes the plan's entries in turn, gathers the bytes of one in its entry
-- buffer, and writes it at the locations that the header lists. The loop ends when the final packet
-- comes and the flasher is done.
--
-- How the code is rendered: a record stands for each struct and keeps the field names; a pointer
-- that may be null is an Option; a byte buffer is the list of its bytes, a table the list of the
-- elements below its count. A handler is a function to the bytes that it sends and the state after
-- it, and the loop a function of what the transport receives. The flasher keeps a pointer into the
-- loop's header buffer: the model keeps the bytes that it sees there, and `dangling` says that the
-- buffer was freed; `undefined` is what C leaves undefined then.
--
-- A loop over a count is recursion on the rounds that are left. The store loops run on fuel
-- 2 ^ 16 + 1, and a store count has 16 bits; the payload loop runs on the packet's length plus the
-- entry count plus one, and a round takes a byte or completes an entry; the loop over the pieces of
-- an entry runs on its bytes, and a piece has a byte at least; the option parser runs on the
-- length of the line plus one, and a token takes a character; the rounds of the packet plan have
-- the bytes that are left for fuel. `stuck` is what the model returns when fuel runs out, or when a
-- table is read out of range; the theorems on the ends of these functions say where it does not
-- occur.
--
-- Parameters: which allocations succeed (`pool`, `room`), the device, as a type of states with the
-- firmware's WriteBlocks, ReadBlocks and FlushBlocks, the firmware's variables, the file, as a type
-- of states with its SetPosition and Read, and the events and statuses of the USB protocol. Nothing
-- is assumed of them, but that the file behaves as its protocol says (`PlainFile`) where the two
-- parsers are compared, that the USB protocol has both the allocation and the release of transfer
-- buffers or neither where the buffers are followed, and that the allocations and writes succeed where a whole flash is followed
-- to its end.
--
-- Not modelled: the opening and closing of the file, the list of block devices and EfiMain. Console
-- output and the firmware's own services are left out. The loop takes the messages that the
-- transport gives as they come; that the two are joined is not stated.
pub mod Prelude
pub mod Word
pub mod Efi
pub mod Bytes
pub mod Proto
pub mod Ffu
pub mod Stream
pub mod PacketPlan
pub mod Secure
pub mod Text
pub mod Frames
pub mod Legacy
pub mod Loop
pub mod Params
pub mod Replies
pub mod FfuFile
pub mod FlashFile
pub mod Options
pub mod Usb
