-- ===== src/Encode/Carried.antt =====
-- The checksum that `_encode_ipv4` stores for what the packet carries.
use fgen.Prelude.{
  ℕ, ◌+◌, ◌*◌, ◌/◌, ◌%◌, ◌^◌, ◌≤◌, ◌<◌, ◌≡◌, refl, sym, ◌∙◌, ap, true, some, [], ◌∷◌, ◌++◌, length,
  u16, not16, Option, none, subst, if_both, if◌then◌else◌, ◌==◌, ◌&&◌, arith,
}
use mathlib.Core.Option.{some-injective}
use fgen.CString.{Bytes}
use fgen.Cksum.{
  for_proto, ipproto_udp, ipv4_udptcp_cksum, ipv4_udptcp_cksum_verify, udptcp_sum, psd_hdr,
  ipv4_phdr_cksum, ipv4_hdr_len,
}
use fgen.Cksum.Sum.{IsBytes}
use fgen.Cksum.Verify.{with_field, ipv4_udptcp_cksum-verified}
use fgen.Encode.Machine.{Ctx, ok, poke, of_option, bytes_at}
use fgen.Encode.Inet.{ipv4_proto}
use fgen.Encode.Packet.{
  Header, front, Addresses, addresses, udp_front, tcp_front, Carried, datagram, segment, typ_of,
  proto_of, front_of, old_of, packet, ipv4_hdr_len-front,
}
use fgen.Encode.Stored.{View, poke-View, bytes_at-View, bytes_behind-View, bind_ok}

abbrev pub marked_for : Header → Carried → Header
marked_for h g = record h { proto = proto_of g }

for_proto-lt : (proto : ℕ) (sum : Option ℕ) (c : ℕ) → for_proto proto sum ≡ some c → c < 2 ^ 16
for_proto-lt proto none c e = absurd cc
for_proto-lt proto (some sum) c e =
    let cksum : ℕ = if not16 sum == 0 && proto == ipproto_udp then 0xffff else not16 sum in
    rw (← some-injective cksum c e) (
      if_both (λ n. n < 2 ^ 16) (not16 sum == 0 && proto == ipproto_udp) (omega arith)
        (omega arith))

ipv4_udptcp_cksum-lt : (hdr l4 : Bytes) (c : ℕ) → ipv4_udptcp_cksum hdr l4 ≡ some c → c < 2 ^ 16
unfolding ipv4_udptcp_cksum
ipv4_udptcp_cksum-lt hdr l4 c e = for_proto-lt _ _ c e

-- The verification does not read the checksum of the IPv4 header.
pub verify_any :
    (h : Header) (c c' : ℕ) (a : Addresses) (t t' l4 : Bytes)
    → ipv4_udptcp_cksum_verify (with_field (front h) c (addresses a ++ t)) l4
      ≡ ipv4_udptcp_cksum_verify (with_field (front h) c' (addresses a ++ t')) l4
unfolding ipv4_udptcp_cksum_verify udptcp_sum ipv4_hdr_len ipv4_phdr_cksum psd_hdr
verify_any h c c' a t t' l4 = refl

-- What the switch of `_encode_ipv4` leaves: the protocol, and a checksum that is accepted.
abbrev pub Stored : Ctx → ℕ → Header → Addresses → Carried → Bytes → Type 0
Stored s off h a g payload =
    (s' : Ctx) × (c : ℕ) × (c < 2 ^ 16)
    × (ipv4_proto off (typ_of g) s ≡ ok tt s')
    × View s' off (packet (marked_for h g) 0 a (front_of g) c payload)
    × (ipv4_udptcp_cksum_verify (packet (marked_for h g) 0 a (front_of g) c payload)
          (with_field (front_of g) c payload)
        ≡ some true)

pub ipv4_proto-Stored :
    (s : Ctx) (off : ℕ) (h : Header) (a : Addresses) (g : Carried) (n : ℕ) (payload : Bytes)
    → View s off (packet h 0 a (front_of g) (old_of g) payload)
    → IsBytes (with_field (front_of g) 0 payload)
    → 256 * h.len_hi + h.len_lo ≡ 20 + n
    → length (front_of g) + 2 ≤ n
    → n ≤ length (front_of g) + 2 + length payload
    → n ≤ 65535
    → Stored s off h a g payload
unfolding ipv4_proto of_option
ipv4_proto-Stored s off h a (datagram u old) n payload v bytes announced least readable short =
    let start = packet h 0 a (udp_front u) old payload in
    let h' = marked_for h (datagram u old) in
    let marked = packet h' 0 a (udp_front u) old payload in
    let zeroed = packet h' 0 a (udp_front u) 0 payload in
    let l4 = with_field (udp_front u) 0 payload in
    let (s1, e1, v1) = poke-View s off 9 start (17 ∷ []) v (omega arith) in
    let at : off + 20 + 6 ≡ off + 26 = omega arith in
    let (s2, e2, v2) = poke-View s1 off 26 marked (0 ∷ 0 ∷ []) v1 (omega arith) in
    let hdr_len = ipv4_hdr_len-front h' 0 (addresses a ++ l4) in
    let (c, e, accepted) =
      ipv4_udptcp_cksum-verified zeroed (udp_front u) payload 3 n refl bytes
        (announced ∙ ap (λ l. l + n) (sym hdr_len)) least readable short in
    let small = ipv4_udptcp_cksum-lt zeroed l4 c e in
    let c16 : u16 c ≡ c = omega arith in
    let (s3, e3, v3) =
      poke-View s2 off 26 zeroed (u16 c % 256 ∷ u16 c / 256 ∷ []) v2 (omega arith) in
    (
      s3,
      c,
      small,
      bind_ok (poke (off + 9) (17 ∷ [])) _ s tt s1 e1
          ∙ bind_ok (bytes_at off) _ s1 marked s1 (bytes_at-View s1 off marked v1)
          ∙ bind_ok (poke (off + 20 + 6) (0 ∷ 0 ∷ [])) _ s1 tt s2 (rw at e2)
          ∙ bind_ok (bytes_at off) _ s2 zeroed s2 (bytes_at-View s2 off zeroed v2)
          ∙ bind_ok (bytes_at (off + 20)) _ s2 l4 s2 (bytes_behind-View s2 off 20 zeroed v2)
          ∙ bind_ok (of_option (ipv4_udptcp_cksum zeroed l4)) _ s2 c s2 (rw e refl)
          ∙ rw at e3,
      subst (λ m. View s3 off (packet h' 0 a (udp_front u) m payload)) c16 v3,
      verify_any h' 0 0 a _ _ _ ∙ accepted,
    )
ipv4_proto-Stored s off h a (segment t) n payload v bytes announced least readable short =
    let h' = marked_for h (segment t) in
    let zeroed = packet h' 0 a (tcp_front t) 0 payload in
    let l4 = with_field (tcp_front t) 0 payload in
    let (s1, e1, v1) =
      poke-View s off 9 (packet h 0 a (tcp_front t) 0 payload) (6 ∷ []) v (omega arith) in
    let at : off + 20 + 16 ≡ off + 36 = omega arith in
    let hdr_len = ipv4_hdr_len-front h' 0 (addresses a ++ l4) in
    let (c, e, accepted) =
      ipv4_udptcp_cksum-verified zeroed (tcp_front t) payload 8 n refl bytes
        (announced ∙ ap (λ l. l + n) (sym hdr_len)) least readable short in
    let small = ipv4_udptcp_cksum-lt zeroed l4 c e in
    let c16 : u16 c ≡ c = omega arith in
    let (s2, e2, v2) =
      poke-View s1 off 36 zeroed (u16 c % 256 ∷ u16 c / 256 ∷ []) v1 (omega arith) in
    (
      s2,
      c,
      small,
      bind_ok (poke (off + 9) (6 ∷ [])) _ s tt s1 e1
          ∙ bind_ok (bytes_at off) _ s1 zeroed s1 (bytes_at-View s1 off zeroed v1)
          ∙ bind_ok (bytes_at (off + 20)) _ s1 l4 s1 (bytes_behind-View s1 off 20 zeroed v1)
          ∙ bind_ok (of_option (ipv4_udptcp_cksum zeroed l4)) _ s1 c s1 (rw e refl)
          ∙ rw at e2,
      subst (λ m. View s2 off (packet h' 0 a (tcp_front t) m payload)) c16 v2,
      verify_any h' 0 0 a _ _ _ ∙ accepted,
    )
