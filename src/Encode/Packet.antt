-- ===== src/Encode/Packet.antt =====
-- A packet with the headers of IPv4 and UDP, and storing the checksum of its IPv4 header.
use fgen.Prelude.{
  ℕ, ◌+◌, ◌/◌, ◌%◌, ◌^◌, ◌≤◌, ◌<◌, ◌≡◌, refl, ◌∙◌, some, [], ◌∷◌, ◌++◌, length, take, u16, not16,
  Option, none, subst, arith,
}
use mathlib.Core.Option.{some-injective}
use fgen.CString.{Bytes}
use fgen.Cksum.{raw_cksum, complement, ipv4_cksum, ipv4_hdr_len}
use fgen.Cksum.Sum.{IsBytes}
use fgen.Cksum.Verify.{with_field, ipv4_cksum-stored}
use fgen.Frame.{OptType, udp, tcp}
use fgen.Encode.Machine.{Ctx, ok, M, ◌>>=◌, of_option, bytes_at}
use fgen.Encode.Inet.{poke_le16}
use fgen.Encode.Stored.{View, poke-View, bytes_at-View, bind_ok}

-- The bytes of an IPv4 header without options up to its checksum.
pub record Header : Type 0 where
  pub tos : ℕ
  pub len_hi : ℕ
  pub len_lo : ℕ
  pub id_hi : ℕ
  pub id_lo : ℕ
  pub frag_hi : ℕ
  pub frag_lo : ℕ
  pub ttl : ℕ
  pub proto : ℕ

abbrev pub front : Header → Bytes
front h =
    0x45 ∷ h.tos ∷ h.len_hi ∷ h.len_lo ∷ h.id_hi ∷ h.id_lo ∷ h.frag_hi ∷ h.frag_lo ∷ h.ttl ∷ h.proto
    ∷ []

-- The end of `finish_ipv4`: the checksum of the header is computed and stored.
unfoldable pub store_cksum : ℕ → M (Unit {0})
store_cksum off = do
  hdr ← bytes_at off
  cksum ← of_option (ipv4_cksum hdr)
  poke_le16 (off + 10) cksum

complement-lt : (o : Option Bytes) (c : ℕ) → complement o ≡ some c → c < 2 ^ 16
complement-lt none c e = absurd cc
complement-lt (some b) c e = rw (← some-injective (not16 (raw_cksum b)) c e) (omega arith)

ipv4_cksum-lt : (hdr : Bytes) (c : ℕ) → ipv4_cksum hdr ≡ some c → c < 2 ^ 16
unfolding ipv4_cksum
ipv4_cksum-lt hdr c e = complement-lt _ c e

pub ipv4_hdr_len-front :
    (h : Header) (v : ℕ) (post : Bytes) → ipv4_hdr_len (with_field (front h) v post) ≡ 20
unfolding ipv4_hdr_len
ipv4_hdr_len-front h v post = refl

pub store_cksum-accepted :
    (s : Ctx) (off : ℕ) (h : Header) (post : Bytes)
    → View s off (with_field (front h) 0 post)
    → IsBytes (with_field (front h) 0 post)
    → 8 ≤ length post
    → (s' : Ctx) × (c : ℕ) × (store_cksum off s ≡ ok tt s')
      × View s' off (with_field (front h) c post)
      × (raw_cksum (take 20 (with_field (front h) c post)) ≡ 0xffff)
unfolding store_cksum of_option
store_cksum-accepted s off h post v bytes long =
    let len : ipv4_hdr_len (with_field (front h) 0 post) ≡ 20 = ipv4_hdr_len-front h 0 post in
    let (c, e, accepted) =
      ipv4_cksum-stored (front h) post refl bytes (omega arith) (omega arith) in
    let small = ipv4_cksum-lt (with_field (front h) 0 post) c e in
    let c16 : u16 c ≡ c = omega arith in
    let (s', e', v') =
      poke-View s off 10 (with_field (front h) 0 post) (u16 c % 256 ∷ u16 c / 256 ∷ []) v
        (omega arith) in
    (
      s',
      c,
      bind_ok (bytes_at off) _ s (with_field (front h) 0 post) s
            (bytes_at-View s off (with_field (front h) 0 post) v)
          ∙ bind_ok (of_option (ipv4_cksum (with_field (front h) 0 post))) _ s c s (rw e refl)
          ∙ e',
      subst (λ n. View s' off (with_field (front h) n post)) c16 v',
      subst (λ n. raw_cksum (take n (with_field (front h) c post)) ≡ 0xffff)
          (ipv4_hdr_len-front h c post) accepted,
    )

-- The addresses behind the checksum, and a UDP header up to its own.
pub record Addresses : Type 0 where
  pub src0 : ℕ
  pub src1 : ℕ
  pub src2 : ℕ
  pub src3 : ℕ
  pub dst0 : ℕ
  pub dst1 : ℕ
  pub dst2 : ℕ
  pub dst3 : ℕ

abbrev pub addresses : Addresses → Bytes
addresses e = e.src0 ∷ e.src1 ∷ e.src2 ∷ e.src3 ∷ e.dst0 ∷ e.dst1 ∷ e.dst2 ∷ e.dst3 ∷ []

pub record UdpHeader : Type 0 where
  pub sport_hi : ℕ
  pub sport_lo : ℕ
  pub dport_hi : ℕ
  pub dport_lo : ℕ
  pub len_hi : ℕ
  pub len_lo : ℕ

abbrev pub udp_front : UdpHeader → Bytes
udp_front u = u.sport_hi ∷ u.sport_lo ∷ u.dport_hi ∷ u.dport_lo ∷ u.len_hi ∷ u.len_lo ∷ []

pub record TcpHeader : Type 0 where
  pub sport_hi : ℕ
  pub sport_lo : ℕ
  pub dport_hi : ℕ
  pub dport_lo : ℕ
  pub seq0 : ℕ
  pub seq1 : ℕ
  pub seq2 : ℕ
  pub seq3 : ℕ
  pub ack0 : ℕ
  pub ack1 : ℕ
  pub ack2 : ℕ
  pub ack3 : ℕ
  pub data_off : ℕ
  pub tcp_flags : ℕ
  pub win_hi : ℕ
  pub win_lo : ℕ

abbrev pub tcp_front : TcpHeader → Bytes
tcp_front t =
    t.sport_hi ∷ t.sport_lo ∷ t.dport_hi ∷ t.dport_lo ∷ t.seq0 ∷ t.seq1 ∷ t.seq2 ∷ t.seq3 ∷ t.ack0
    ∷ t.ack1 ∷ t.ack2 ∷ t.ack3 ∷ t.data_off ∷ t.tcp_flags ∷ t.win_hi ∷ t.win_lo ∷ []

-- What the packet carries, with what stands in the checksum field of UDP; that of TCP is zero.
pub data Carried : Type 0 where
  datagram : UdpHeader → ℕ → Carried
  segment : TcpHeader → Carried

abbrev pub typ_of : Carried → OptType
typ_of (datagram u old) = udp
typ_of (segment t) = tcp

abbrev pub proto_of : Carried → ℕ
proto_of (datagram u old) = 17
proto_of (segment t) = 6

abbrev pub front_of : Carried → Bytes
front_of (datagram u old) = udp_front u
front_of (segment t) = tcp_front t

abbrev pub old_of : Carried → ℕ
old_of (datagram u old) = old
old_of (segment t) = 0

-- The packet with its two checksums.
abbrev pub packet : Header → ℕ → Addresses → Bytes → ℕ → Bytes → Bytes
packet h cksum a l4 l4_cksum payload =
    with_field (front h) cksum (addresses a ++ with_field l4 l4_cksum payload)
