-- ===== src/Cksum.antt =====
-- lib/include/net/fgen_ip.h: the Internet checksum of IPv4, UDP and TCP. A buffer is the list of
-- the bytes that can be read from its address on; `none` is a read past their end, which C leaves
-- undefined. A uint16_t is read with its low byte first, as on the x86 targets of the build.
pub mod Sum
pub mod Fold
pub mod Verify
pub mod Inet6
use fgen.Prelude.{
  ℕ, zero, suc, ◌+◌, ◌-◌, ◌*◌, ◌/◌, ◌%◌, ◌^◌, Bool, true, false, ◌&&◌, Option, none, some, List, [],
  ◌∷◌, ◌++◌, ltb, leb, ◌==◌, if◌then◌else◌, length, take, drop, u8, u16, u32, not16, get_elem?,
}
use fgen.CString.{Bytes}

abbrev pub byte_or_0 : Option ℕ → ℕ
byte_or_0 none = 0
byte_or_0 (some b) = b

abbrev pub byte_at : Bytes → ℕ → ℕ
byte_at b i = byte_or_0 (get_elem? b i)

-- `*(uint16_t *)p` and `be16toh`, on two bytes.
abbrev pub le16 : ℕ → ℕ → ℕ
le16 lo hi = lo + 256 * hi

abbrev pub be16_at : Bytes → ℕ → ℕ
be16_at b i = 256 * byte_at b i + byte_at b (i + 1)

-- The second loop of `__fgen_raw_cksum`, a word at a time, and the odd byte behind it.
unfoldable pub sum_words : Bytes → ℕ → ℕ
sum_words [] sum = sum
sum_words (a ∷ []) sum = u32 (sum + a)
sum_words (a ∷ b ∷ s) sum = sum_words s (u32 (sum + le16 a b))

-- `__fgen_raw_cksum`: four words at a time while eight bytes are left.
unfoldable pub raw_cksum_sum : Bytes → ℕ → ℕ
unfolding sum_words
raw_cksum_sum (a ∷ b ∷ c ∷ d ∷ e ∷ f ∷ g ∷ h ∷ s) sum =
    raw_cksum_sum s (u32 (u32 (u32 (u32 (sum + le16 a b) + le16 c d) + le16 e f) + le16 g h))
raw_cksum_sum s sum = sum_words s sum

-- `__fgen_raw_cksum_reduce`.
abbrev pub fold16 : ℕ → ℕ
fold16 sum = u32 (sum / 2 ^ 16 + sum % 2 ^ 16)

unfoldable pub raw_cksum_reduce : ℕ → ℕ
raw_cksum_reduce sum = u16 (fold16 (fold16 sum))

-- `fgen_raw_cksum(buf, len)`, on the len bytes at buf.
unfoldable pub raw_cksum : Bytes → ℕ
unfolding raw_cksum_sum raw_cksum_reduce
raw_cksum b = raw_cksum_reduce (raw_cksum_sum b 0)

-- The first len bytes, if they can be read.
unfoldable pub read : Bytes → ℕ → Option Bytes
read b len = if leb len (length b) then some (take len b) else none

-- `fgen_ipv4_hdr_len`.
unfoldable pub ipv4_hdr_len : Bytes → ℕ
ipv4_hdr_len hdr = u8 (byte_at hdr 0 % 16 * 4)

abbrev pub complement : Option Bytes → Option ℕ
complement none = none
complement (some b) = some (not16 (raw_cksum b))

-- `fgen_ipv4_cksum`.
unfoldable pub ipv4_cksum : Bytes → Option ℕ
unfolding raw_cksum read ipv4_hdr_len
ipv4_cksum hdr = complement (read hdr (ipv4_hdr_len hdr))

-- The pseudo header of `fgen_ipv4_phdr_cksum`: both addresses, a zero, the protocol and the
-- length of the payload in network order.
unfoldable pub psd_hdr : Bytes → Bytes
unfolding ipv4_hdr_len
psd_hdr hdr =
    let len = u16 (be16_at hdr 2 + 2 ^ 32 - ipv4_hdr_len hdr) in
    take 8 (drop 12 hdr) ++ (0 ∷ byte_at hdr 9 ∷ len / 256 ∷ len % 256 ∷ [])

-- `fgen_ipv4_phdr_cksum`.
unfoldable pub ipv4_phdr_cksum : Bytes → ℕ
unfolding psd_hdr raw_cksum
ipv4_phdr_cksum hdr = raw_cksum (psd_hdr hdr)

abbrev pub add_phdr : Bytes → Option Bytes → Option ℕ
add_phdr hdr none = none
add_phdr hdr (some l4) = some (u16 (fold16 (u32 (raw_cksum l4 + ipv4_phdr_cksum hdr))))

-- `__ipv4_udptcp_cksum`.
unfoldable pub udptcp_sum : Bytes → Bytes → Option ℕ
unfolding read ipv4_phdr_cksum raw_cksum ipv4_hdr_len
udptcp_sum hdr l4 =
    let l3_len = be16_at hdr 2 in
    if ltb l3_len (ipv4_hdr_len hdr)
    then some 0
    else add_phdr hdr (read l4 (l3_len - ipv4_hdr_len hdr))

abbrev pub ipproto_tcp : ℕ
ipproto_tcp = 6

abbrev pub ipproto_udp : ℕ
ipproto_udp = 17

-- RFC 768: a computed zero is sent as all ones over UDP.
abbrev pub for_proto : ℕ → Option ℕ → Option ℕ
for_proto proto none = none
for_proto proto (some sum) =
    let cksum = not16 sum in some (if cksum == 0 && proto == ipproto_udp then 0xffff else cksum)

-- `fgen_ipv4_udptcp_cksum`.
unfoldable pub ipv4_udptcp_cksum : Bytes → Bytes → Option ℕ
unfolding udptcp_sum
ipv4_udptcp_cksum hdr l4 = for_proto (byte_at hdr 9) (udptcp_sum hdr l4)

abbrev pub is_ones : Option ℕ → Option Bool
is_ones none = none
is_ones (some sum) = some (sum == 0xffff)

-- `fgen_ipv4_udptcp_cksum_verify`, true for 0 and false for -1.
unfoldable pub ipv4_udptcp_cksum_verify : Bytes → Bytes → Option Bool
unfolding udptcp_sum
ipv4_udptcp_cksum_verify hdr l4 = is_ones (udptcp_sum hdr l4)
