-- ===== src/Tests/Packets.antt =====
-- A packet of IPv4 and UDP in a block.
use fgen.Prelude.{ℕ, ◌+◌, ◌*◌, ◌≡◌, refl, true, some, [], ◌∷◌, ◌++◌, take, drop, replicate, arith}
use fgen.CString.{Bytes}
use fgen.Cksum.{raw_cksum, ipv4_udptcp_cksum_verify}
use fgen.Frame.{udp}
use fgen.Frames.{new_frame}
use fgen.Encode.Machine.{Ctx, ok}
use fgen.Encode.Inet.{finish_ipv4}
use fgen.Encode.Stored.{View}
use fgen.Encode.Packet.{Header, Addresses, UdpHeader, udp_front, datagram, packet}
use fgen.Encode.Verified.{finish_ipv4-verified}
use fgen.Tests.Encoding.{empty}

abbrev header : Header
header = record {
  tos = 0;
  len_hi = 0;
  len_lo = 0;
  id_hi = 0;
  id_lo = 1;
  frag_hi = 0;
  frag_lo = 0;
  ttl = 64;
  proto = 0;
}

abbrev ends : Addresses
ends = record {
  src0 = 192;
  src1 = 10;
  src2 = 0;
  src3 = 1;
  dst0 = 192;
  dst1 = 10;
  dst2 = 0;
  dst3 = 2;
}

abbrev ports : UdpHeader
ports = record {
  sport_hi = 4;
  sport_lo = 210;
  dport_hi = 22;
  dport_lo = 46;
  len_hi = 0;
  len_lo = 11;
}

abbrev payload : Bytes
payload = 0xab ∷ 0xcd ∷ 0xef ∷ []

abbrev started : Ctx
started = record {
  frame = record (new_frame [] []) { data_len = 45 };
  fg = record empty {
    salloc = record {
      ptr = some (replicate 14 0 ++ packet header 0 ends (udp_front ports) 7 payload);
      size = 45;
      used = 45;
    };
  };
}

started-View : View started 14 (packet header 0 ends (udp_front ports) 7 payload)
started-View = record {
  mem = replicate 14 0 ++ packet header 0 ends (udp_front ports) 7 payload;
  block = refl;
  seen = refl;
  inside = omega arith;
}

finish_ipv4-verified_example :
    (s' : Ctx) × (h' : Header) × (c : ℕ) × (c' : ℕ) × (finish_ipv4 1 14 udp started ≡ ok tt s')
    × View s' 14 (packet h' c ends (udp_front ports) c' payload)
    × (256 * h'.len_hi + h'.len_lo ≡ 31)
    × (h'.proto ≡ 17)
    × (raw_cksum (take 20 (packet h' c ends (udp_front ports) c' payload)) ≡ 0xffff)
    × (ipv4_udptcp_cksum_verify
          (packet h' c ends (udp_front ports) c' payload)
          (drop 20 (packet h' c ends (udp_front ports) c' payload))
        ≡ some true)
finish_ipv4-verified_example =
    finish_ipv4-verified started 1 14 header ends (datagram ports 7) payload started-View
      (omega arith) (omega arith) (omega arith) (omega arith)
