-- ===== src/Lib.antt =====
-- Verification of fgen, a library that generates network frames from texts such as
-- `Ether( dst=00:01:02:03:04:05 )/IPv4(dst=1.2.3.4)/UDP(sport=5678)/Payload(size=64)`.
--
-- The program. `fgen_create` makes a fgen_t with a block of memory of the allocator;
-- `fgen_load_strings` and `fgen_add_frame` add frames to its list. For each frame `_encode_frame`
-- cuts the text at `/`, finds each layer's row in `fgen_tbl`, and `next_layer` calls the layers'
-- functions: each writes its header into the block, calls `next_layer` for the layers behind it,
-- and then fills in what depends on them (types, lengths, checksums).
--
-- Files. Each directory beside a file holds that file's child modules.
--   Prelude.antt       numbers, lists, machine words, signed integers and bit fields
--   CString.antt       what the sources use of the C library on strings: classes of characters,
--                      comparison, strtok_r, strstr, strlcpy, strtol, strtoull, inet_pton,
--                      %d
--   Strings.antt       lib/include/fgen_strings.h: strtrim, strtrimset, fgen_strtok; Quoted
--                      (fgen_strqtok), Search (fgen_stropt and counting), Mask (mask_size)
--   Cksum.antt         lib/include/net/fgen_ip.h: the checksums of IPv4, UDP and TCP; Inet6 (those
--                      of IPv6, and its extension headers)
--   Ether.antt         lib/include/net/fgen_ether.h: addresses to and from text; Address (the kinds of
--                      addresses, fgen_ether_aton), with a proof in Same
--   Salloc.antt        lib/utils/salloc.c, lib/utils/salloc.h: the block allocator
--   Frame.antt         lib/core/fgen.h: the types
--   Encode.antt        lib/core/encode.c: Machine (state and actions), Params (parameters of a
--                      layer), Layers, Inet and Payload (the layers), Table (fgen_tbl, next_layer,
--                      _encode_frame); the proofs are in Keeps and Total, and for the
--                      checksums of a packet in Stored, Packet, Carried and
--                      Verified
--   Frames.antt        lib/core/fgen.c: the list of frames, adding, finding and loading
--                      strings; Files (fgen_load_files), with proofs in Counts and Endless
--   Decode.antt        lib/core/decode.c: the text buffer and its actions; Layers (the protocols and
--                      fgen_decode), Format (printf), Hex (fgen_decode_string); the proofs are in
--                      Buffer, Steps and Ends
--   Common.antt        lib/include/fgen_common.h: powers of two, bit positions, alignment;
--                      Size (fgen_str_to_size)
--   Mmap.antt          lib/mmap: page types; Alloc (mmap_alloc) and Use (mmap_free and the
--                      accesses); the proofs are in Sizes, Answers, Maps, NonNull and
--                      Counters
--   Log.antt           lib/log/fgen_log.c, lib/log/fgen_log.h: the level of the log
--   Vt100.antt         lib/osal/vt100_out.c: colour tuples in texts; Names (the tables of names in
--                      lib/osal/vt100_out.h), Escapes (its functions for the basic colours); the
--                      proofs are in Matches, Fits, Plain, Ends and Shown
--   Tty.antt           lib/osal/fgen_tty.c, lib/osal/fgen_tty.h: the terminal and its settings, with
--                      proofs in Restore
--   Stdio.antt         lib/osal/fgen_stdio.c: printing through both, with proofs in Center and Written
--   Hexdump.antt       lib/utils/hexdump.c: both dumps, with proofs in Rebuilt, Output and Joined
--   System.antt        lib/osal/fgen_system.c: processors and nodes, with proofs in Sockets and Places
--   Tests.antt         runs at concrete inputs
--
-- The model. A C string is the list of its bytes, a NULL pointer `none`, a return of -1 the failed
-- outcome; a definition has the name of its C function without leading underscores. The encoder is
-- a state monad over the frame and its fgen_t: `ok`, `failed` (-1), `fault` (an access that C
-- leaves undefined: outside the block, through NULL, a negative memset) and `stuck` (out of fuel).
-- The fuel of `next_layer` is one more than the layers with the closing one, and each call of it
-- takes the next layer; the fuel of the decoder's tags is the length of the data, since each tag
-- takes four bytes of it. Unsigned fields are cut to their width where the source assigns them;
-- words are read and stored low byte first, as on x86. The heap is an argument that says which
-- allocations succeed. The kernel that maps memory is an argument too: its answers may differ at
-- each pass over `retry` of mmap_alloc, of which three are enough, since each SIGBUS goes down by a
-- type. The fuel of the loops over one file is one more than its bytes, each round taking one of
-- them at least; the loop of `fgen_load_files` over the files is run for any number of rounds, and
-- `fopen` may answer differently in each, since no file is closed: two rounds are enough for one
-- file, while for several the loop may end only where `fopen` fails. The fuel of the loop of
-- `vt_color_parse` is the length of its text, and that of `fgen_hexdump` the length of the data, each
-- round taking a byte of them at least. A text that `vt_color_parse` writes is the list of its
-- bytes from the start of the buffer on; where it leaves no room in the buffer for its NUL, the
-- outcome is `overrun`, of which nothing more is said, since C leaves undefined what lies past the
-- end. Every `calloc` may fail. `tcsetattr`, where it succeeds, is taken to store all that it is
-- given, for its descriptor alone.
--
-- Not modelled: what is logged; the freeing of memory; lib/osal/netdev_funcs.c, which asks the system
-- by ioctl; the functions of vt100_out.h that print one fixed escape string; the table of colour
-- codes there, which comes from another project and is a parameter; lib/utils/crc32.c, a copy of a
-- public implementation with generated tables; the test program and examples/pktperf, an
-- application on DPDK.
pub mod CString
pub mod Cksum
pub mod Common
pub mod Decode
pub mod Encode
pub mod Ether
pub mod Frame
pub mod Frames
pub mod Hexdump
pub mod Log
pub mod Mmap
pub mod Prelude
pub mod Salloc
pub mod Stdio
pub mod Strings
pub mod System
pub mod Tests
pub mod Tty
pub mod Vt100
