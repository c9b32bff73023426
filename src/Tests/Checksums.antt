-- ===== src/Tests/Checksums.antt =====
-- Checksums of headers and of datagrams, over IPv4 and IPv6.
use fgen.Cksum.Inet6.{
  ipv6_udptcp_cksum, rfc_psd_hdr, ipv6_udptcp_cksum-stored, ipv6_get_next_ext, next_ext,
}
use fgen.Prelude.{
  ◌≡◌, refl, ◌+◌, ◌%◌, ◌^◌, Bool, ◌&&◌, true, some, [], ◌∷◌, ◌++◌, arith, take, ltb, ◌<◌, ℕ,
  replicate,
}
use fgen.CString.{Bytes, codes}
use fgen.Cksum.{
  raw_cksum_sum, raw_cksum, ipv4_hdr_len, ipv4_cksum, ipv4_udptcp_cksum, ipv4_udptcp_cksum_verify,
}
use fgen.Cksum.Sum.{word_sum, IsBytes, raw_cksum_sum-word_sum}
use fgen.Cksum.Fold.{ones}
use fgen.Cksum.Verify.{with_field, ipv4_cksum-stored, ipv4_udptcp_cksum-verified}

-- An IPv4 header without options for a UDP datagram of ten bytes, in front of and behind the
-- checksum.
abbrev before_cksum : Bytes
before_cksum = 0x45 ∷ 0 ∷ 0 ∷ 30 ∷ 0 ∷ 1 ∷ 0 ∷ 0 ∷ 64 ∷ 17 ∷ []

abbrev addresses : Bytes
addresses = 10 ∷ 0 ∷ 0 ∷ 1 ∷ 10 ∷ 0 ∷ 0 ∷ 2 ∷ []

abbrev header : Bytes
header = before_cksum ++ (0 ∷ 0 ∷ addresses)

-- The UDP header in front of its checksum, and the payload.
abbrev ports : Bytes
ports = 4 ∷ 210 ∷ 22 ∷ 46 ∷ 0 ∷ 10 ∷ []

abbrev text : Bytes
text = 0x68 ∷ 0x69 ∷ []

unfoldable bytes : Bytes → Bool
bytes [] = true
bytes (x ∷ s) = ltb x 256 && bytes s

bytes-IsBytes : (s : Bytes) → bytes s ≡ true → IsBytes s
unfolding bytes
bytes-IsBytes [] h = tt
bytes-IsBytes (x ∷ s) h = ground (arith, bytes-IsBytes s)

raw_cksum_sum-word_sum_example : raw_cksum_sum header 5 ≡ (5 + word_sum header) % 2 ^ 32
raw_cksum_sum-word_sum_example = raw_cksum_sum-word_sum header 5 (omega arith)

header-IsBytes : IsBytes header
unfolding bytes
header-IsBytes = bytes-IsBytes header refl

datagram-IsBytes : IsBytes (with_field ports 0 text)
unfolding bytes
datagram-IsBytes = bytes-IsBytes (with_field ports 0 text) refl

header_length : ipv4_hdr_len header ≡ 20
unfolding ipv4_hdr_len
header_length = refl

ipv4_cksum_run : ipv4_cksum header ≡ some 0xcc66
unfolding ipv4_cksum
ipv4_cksum_run = refl

ipv4_cksum-stored_example :
    (c : ℕ) × (ipv4_cksum header ≡ some c)
    × (raw_cksum (
          take
            (ipv4_hdr_len (with_field before_cksum c addresses))
            (with_field before_cksum c addresses))
        ≡ 0xffff)
ipv4_cksum-stored_example =
    ipv4_cksum-stored before_cksum addresses refl header-IsBytes (omega (arith, header_length))
      (omega (arith, header_length))

ipv4_udptcp_cksum-verified_example :
    (c : ℕ) × (ipv4_udptcp_cksum header (with_field ports 0 text) ≡ some c)
    × (ipv4_udptcp_cksum_verify header (with_field ports c text) ≡ some true)
ipv4_udptcp_cksum-verified_example =
    ipv4_udptcp_cksum-verified header ports text 3 10 refl datagram-IsBytes
      (omega (arith, header_length)) (omega arith) (omega arith) (omega arith)

-- An IPv6 header of a UDP datagram of 12 bytes, and the datagram up to its checksum field.
abbrev ipv6_header : Bytes
ipv6_header =
    0x60 ∷ 0 ∷ 0 ∷ 0 ∷ 0 ∷ 12 ∷ 17 ∷ 64 ∷ (replicate 15 0 ++ (1 ∷ replicate 15 0)) ++ 2 ∷ []

abbrev ipv6_ports : Bytes
ipv6_ports = 4 ∷ 210 ∷ 22 ∷ 46 ∷ 0 ∷ 12 ∷ []

unfoldable are_bytes : Bytes → Bool
are_bytes [] = true
are_bytes (c ∷ s) = ltb c 256 && are_bytes s

are_bytes-IsBytes : (s : Bytes) → are_bytes s ≡ true → IsBytes s
unfolding are_bytes
are_bytes-IsBytes [] e = tt
are_bytes-IsBytes (c ∷ s) e = (ground arith, are_bytes-IsBytes s (ground arith))

ipv6_header-IsBytes : IsBytes ipv6_header
unfolding are_bytes
ipv6_header-IsBytes = are_bytes-IsBytes ipv6_header refl

ipv6_udptcp_cksum-stored_example :
    (c : ℕ) × (ipv6_udptcp_cksum ipv6_header (with_field ipv6_ports 0 (codes "ping")) ≡ some c)
    × (0 < c)
    × (ones (
          word_sum (rfc_psd_hdr ipv6_header)
          + word_sum (take 12 (with_field ipv6_ports c (codes "ping"))))
        ≡ 0xffff)
ipv6_udptcp_cksum-stored_example =
    ipv6_udptcp_cksum-stored ipv6_header ipv6_ports (codes "ping") 3 12 ipv6_header-IsBytes
      (omega arith) refl (ground arith) refl (omega arith) (omega arith) (omega arith)

-- The extension header of fragments is of 8 bytes, others say their length.
next_ext_run : ipv6_get_next_ext (17 ∷ 1 ∷ []) 60 ≡ next_ext 17 16
unfolding ipv6_get_next_ext
next_ext_run = refl
