-- ===== src/Encode/Verified.antt =====
-- The checksums that `_encode_ipv4` leaves.
use fgen.Prelude.{
  ℕ, ◌+◌, ◌-◌, ◌*◌, ◌/◌, ◌%◌, ◌^◌, ◌≤◌, ◌<◌, ◌≡◌, refl, ◌∙◌, true, some, [], ◌∷◌, ◌++◌, length,
  take, drop, u16, get_elem?, All-parts, All-append, arith,
}
use fgen.CString.{Bytes}
use fgen.Cksum.{raw_cksum, ipv4_udptcp_cksum_verify}
use fgen.Cksum.Sum.{IsBytes}
use fgen.Cksum.Verify.{with_field, IsBytes-with_field}
use fgen.Encode.Machine.{
  Ctx, ok, poke, with_length, fbuf_data_len, gets, set_opt_length, modify_opts,
}
use fgen.Encode.Inet.{ipv4_proto, finish_ipv4}
use fgen.Encode.Packet.{
  Header, front, Addresses, addresses, Carried, datagram, segment, typ_of, proto_of, front_of,
  old_of, packet, store_cksum, store_cksum-accepted,
}
use fgen.Encode.Carried.{marked_for, verify_any, ipv4_proto-Stored}
use fgen.Encode.Stored.{View, poke-View, bind_ok}

abbrev sized_for : Header → ℕ → Header
sized_for h n = record h { len_hi = u16 n / 256; len_lo = u16 n % 256 }

front-IsBytes :
    (h : Header) (n : ℕ) (g : Carried)
    → IsBytes (front h)
    → IsBytes (front (marked_for (sized_for h n) g))
front-IsBytes h n (datagram u old) hb = omega arith
front-IsBytes h n (segment t) hb = omega arith

packet-IsBytes :
    (h : Header) (a : Addresses) (l4 : Bytes)
    → IsBytes (front h)
    → IsBytes (addresses a)
    → IsBytes l4
    → IsBytes (with_field (front h) 0 (addresses a ++ l4))
packet-IsBytes h a l4 hb ab lb =
    let behind : IsBytes (addresses a ++ l4) = All-append (λ b. b < 256) (addresses a) l4 ab lb in
    All-append (λ b. b < 256) (front h) (0 ∷ 0 ∷ (addresses a ++ l4)) hb
      (omega arith, (omega arith, behind))

set_opt_length-View :
    (s : Ctx) (off lidx n : ℕ) (b : Bytes)
    → View s off b
    → (s' : Ctx) × (set_opt_length lidx n s ≡ ok tt s') × View s' off b
unfolding set_opt_length modify_opts
set_opt_length-View s off lidx n b v = (
  record s {
    fg = record (s.fg) { opts = with_length s.fg.opts lidx n (get_elem? s.fg.opts lidx) };
  },
  refl,
  record { mem = v.mem; block = v.block; seen = v.seen; inside = v.inside },
)

-- The end of `_encode_ipv4` over a UDP datagram or a TCP segment, in a block that has room for the
-- frame, with the checksum of the header, and that of the segment, still zero as the encoder starts
-- them: it succeeds and writes the length of what the frame has from the header on and the
-- protocol. Then the checksum of the header is 0xffff, as a receiver tests it, the verification
-- accepts the datagram or the segment, and the addresses, the header behind them up to its checksum
-- and the payload are as before.
pub finish_ipv4-verified :
    (s : Ctx) (lidx off : ℕ) (h : Header) (a : Addresses) (g : Carried) (payload : Bytes)
    → View s off (packet h 0 a (front_of g) (old_of g) payload)
    → IsBytes (packet h 0 a (front_of g) 0 payload)
    → off + 22 + length (front_of g) ≤ s.frame.data_len
    → s.frame.data_len ≤ off + 22 + length (front_of g) + length payload
    → s.frame.data_len < 2 ^ 16
    → (s' : Ctx) × (h' : Header) × (c : ℕ) × (c' : ℕ) × (finish_ipv4 lidx off (typ_of g) s
        ≡ ok tt s')
      × View s' off (packet h' c a (front_of g) c' payload)
      × (256 * h'.len_hi + h'.len_lo ≡ s.frame.data_len - off)
      × (h'.proto ≡ proto_of g)
      × (raw_cksum (take 20 (packet h' c a (front_of g) c' payload)) ≡ 0xffff)
      × (ipv4_udptcp_cksum_verify
            (packet h' c a (front_of g) c' payload)
            (drop 20 (packet h' c a (front_of g) c' payload))
          ≡ some true)
unfolding finish_ipv4 fbuf_data_len gets store_cksum
finish_ipv4-verified s lidx off h a g payload v bytes least most word =
    let len = s.frame.data_len in
    let total = u16 (len + 2 ^ 16 - off) in
    let tl : total ≡ len - off = omega arith in
    let start = packet h 0 a (front_of g) (old_of g) payload in
    let sized = sized_for h total in
    let l4 = with_field (front_of g) 0 payload in
    let parts = All-parts (λ b. b < 256) (front h) (0 ∷ 0 ∷ (addresses a ++ l4)) bytes in
    let behind = All-parts (λ b. b < 256) (addresses a) l4 parts.1.1.1 in
    let (s1, e1, v1) = set_opt_length-View s off lidx total start v in
    let (s2, e2, v2) =
      poke-View s1 off 2 start (u16 total / 256 ∷ u16 total % 256 ∷ []) v1 (omega arith) in
    let (s3, c', small, e3, v3, accepted) =
      ipv4_proto-Stored s2 off sized a g (len - off - 20) payload v2 behind.1 (omega arith)
        (omega arith) (omega arith) (omega arith) in
    let l4' = with_field (front_of g) c' payload in
    let front_bytes : IsBytes (front (marked_for sized g)) = front-IsBytes h total g parts.0 in
    let l4_bytes : IsBytes l4' = IsBytes-with_field (front_of g) c' payload behind.1 small in
    let (s4, c, e4, v4, ones) =
      store_cksum-accepted s3 off (marked_for sized g) (addresses a ++ l4') v3
        (packet-IsBytes (marked_for sized g) a l4' front_bytes behind.0 l4_bytes) (omega arith) in
    (
      s4,
      marked_for sized g,
      c,
      c',
      bind_ok fbuf_data_len _ s len s refl
          ∙ bind_ok (set_opt_length lidx total) _ s tt s1 e1
          ∙ bind_ok (poke (off + 2) (u16 total / 256 ∷ u16 total % 256 ∷ [])) _ s1 tt s2 e2
          ∙ bind_ok (ipv4_proto off (typ_of g)) _ s2 tt s3 e3
          ∙ e4,
      v4,
      omega arith,
      refl,
      ones,
      verify_any (marked_for sized g) c 0 a l4' l4' l4' ∙ accepted,
    )
