-- ===== src/Tests/Decoding.antt =====
-- Bytes to text.
use fgen.Prelude.{ℕ, ◌≡◌, refl, Bool, true, false, none, some, [], ◌∷◌, ◌++◌, arith, replicate}
use fgen.CString.{Bytes, codes, isspace}
use fgen.Frame.{udp, ether}
use fgen.Decode.{Dc, Answer, done, append, ◌⨾◌, say, skip, with_header, return_ok}
use fgen.Decode.Buffer.{Appended, append-Appended, text_of}
use fgen.Decode.Layers.{decode, raw_bytes}
use fgen.Decode.Steps.{Ends}
use fgen.Decode.Ends.{decode-Ends}
use fgen.Decode.Hex.{returned, decode_string, hex_pair, Blank, decode_string-Blank}

abbrev has_room : ℕ → Bool
has_room n = true

-- A text of fifteen bytes in the first block.
abbrev begun : Dc
begun = record {
  frame_data = [];
  data_len = 0;
  data_off = 0;
  buffer = some (codes "Ether(dst=00:11");
  buf_len = 256;
  used = 15;
}

append-Appended_example :
    Appended (replicate 300 b'x') begun (append has_room (replicate 300 b'x') begun)
append-Appended_example =
    append-Appended has_room (replicate 300 b'x') begun
      (refl, omega arith, omega arith, omega arith)

-- A UDP header and four bytes.
abbrev datagram : Bytes
datagram = 4 ∷ 210 ∷ 22 ∷ 46 ∷ 0 ∷ 12 ∷ 0 ∷ 0 ∷ codes "hi!" ++ (10 ∷ [])

abbrev ntop6 : Bytes → Bytes
ntop6 b = codes "::"

abbrev answer_text : Answer → Bytes
answer_text (done dc) = text_of dc.buffer
answer_text _ = []

decode_run :
    answer_text (decode has_room ntop6 datagram 12 udp)
    ≡ codes "UDP(dport=5678,sport=1234,len=12,cksum=0x0)/Raw('hi!\\x0a')/Payload(len=16)"
unfolding decode ◌⨾◌ say with_header skip raw_bytes return_ok
decode_run = refl

-- Two tags of type 0x88a8, and nothing that can be read behind them.
abbrev tags : Bytes
tags = replicate 12 2 ++ (0x88 ∷ 0xa8 ∷ 0xa0 ∷ 5 ∷ 0x88 ∷ 0xa8 ∷ 0 ∷ 6 ∷ 8 ∷ 0 ∷ [])

decode-Ends_example : Ends (decode has_room ntop6 tags 22 ether)
decode-Ends_example = decode-Ends has_room ntop6 tags 22 ether (omega arith)

blank_run : decode_string 9 false (codes " \t ") (7 ∷ 7 ∷ []) 2 ≡ returned (some 0) (7 ∷ 7 ∷ [])
unfolding decode_string isspace
blank_run = refl

decode_string-Blank_example : Blank (codes " \t ")
decode_string-Blank_example =
    decode_string-Blank 9 false (codes " \t ") (7 ∷ 7 ∷ []) (7 ∷ 7 ∷ []) 2 0 blank_run

-- The first pair is stored over and over, until the buffer is full.
pair_run : decode_string 9 false (codes "4a 4b") (7 ∷ 7 ∷ []) 2 ≡ returned none (0x4a ∷ 0x4a ∷ [])
unfolding decode_string isspace hex_pair
pair_run = refl

solid_0 : isspace b'0' ≡ false
unfolding isspace
solid_0 = refl

no_pair : hex_pair (codes "0x12") ≡ none
unfolding hex_pair
no_pair = refl
