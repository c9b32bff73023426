-- ===== src/Cksum/Inet6.antt =====
-- lib/include/net/fgen_ip.h: the pseudo header and the checksums of IPv6, and its extension headers.
use fgen.Prelude.{
  ℕ, zero, suc, ◌+◌, ◌-◌, ◌*◌, ◌≤◌, ◌<◌, ◌≡◌, ◌∙◌, ap, Bool, true, Option, none, some, [], ◌∷◌,
  ◌++◌, arith, length, take, drop, length-take, length-drop, All-take, ◌==◌, ◌&&◌, ◌||◌,
  if◌then◌else◌, u16, u32, not16,
}
use fgen.CString.{Bytes}
use fgen.Cksum.{raw_cksum, raw_cksum_sum, raw_cksum_reduce, read, fold16, byte_at, be16_at}
use fgen.Cksum.Sum.{word_sum, word_sum-append, word_sum-le, IsBytes, raw_cksum_sum-word_sum}
use fgen.Cksum.Fold.{
  ones, ones-lt, ones-add_left, fold16-ones, raw_cksum-ones, raw_cksum-lt, ones-add_swapped,
  raw_cksum_reduce-ones,
}
use fgen.Cksum.Verify.{
  with_field, word_sum-with_field, length-with_field, take-with_field, read_all,
  IsBytes-take-with_field, byte_at-lt,
}

-- The source and the destination address of a header.
unfoldable pub ipv6_addrs : Bytes → Bytes
ipv6_addrs hdr = take 32 (drop 8 hdr)

-- The pseudo header of `fgen_ipv6_phdr_cksum`: the payload length in the first half of its word,
-- and the protocol in the last byte of its own.
unfoldable pub ipv6_psd_hdr : Bytes → Bytes
ipv6_psd_hdr hdr = byte_at hdr 4 ∷ byte_at hdr 5 ∷ 0 ∷ 0 ∷ 0 ∷ 0 ∷ 0 ∷ byte_at hdr 6 ∷ []

-- `fgen_ipv6_phdr_cksum`.
unfoldable pub ipv6_phdr_cksum : Bytes → ℕ
unfolding raw_cksum_sum raw_cksum_reduce ipv6_addrs ipv6_psd_hdr
ipv6_phdr_cksum hdr =
    raw_cksum_reduce (raw_cksum_sum (ipv6_psd_hdr hdr) (raw_cksum_sum (ipv6_addrs hdr) 0))

-- The end of `fgen_ipv6_udptcp_cksum`: one fold, the complement, and all ones for 0.
abbrev pub finish_cksum : ℕ → ℕ
finish_cksum sum = let cksum = not16 (fold16 sum) in if cksum == 0 then 0xffff else cksum

abbrev pub add_ipv6_phdr : Bytes → Option Bytes → Option ℕ
add_ipv6_phdr hdr none = none
add_ipv6_phdr hdr (some l4) = some (finish_cksum (u32 (raw_cksum l4 + ipv6_phdr_cksum hdr)))

-- `fgen_ipv6_udptcp_cksum`; none reads behind the payload.
unfoldable pub ipv6_udptcp_cksum : Bytes → Bytes → Option ℕ
unfolding raw_cksum read ipv6_phdr_cksum
ipv6_udptcp_cksum hdr l4 = add_ipv6_phdr hdr (read l4 (be16_at hdr 4))

-- `fgen_raw_cksum_buf`, which ignores its offset.
unfoldable pub raw_cksum_buf : Bytes → ℕ → ℕ → Option ℕ
unfolding raw_cksum read
raw_cksum_buf buf off len = elim (read buf len) [ none ↦ none | some b ↦ some (raw_cksum b) ]

-- IPPROTO_HOPOPTS, IPPROTO_ROUTING, IPPROTO_FRAGMENT, IPPROTO_AH and IPPROTO_DSTOPTS.
abbrev pub is_options : ℕ → Bool
is_options proto = proto == 0 || (proto == 43 || proto == 60)

-- What `fgen_ipv6_get_next_ext` returns: the next protocol with the length of the extension,
-- -EINVAL, or a read behind the data.
pub data NextExt : Type 0 where
  next_ext : ℕ → ℕ → NextExt
  einval : NextExt
  unreadable : NextExt

-- The extension's own length field, in units of `unit` bytes after the first `first` of them.
abbrev pub sized_ext : ℕ → ℕ → Bytes → NextExt
sized_ext first unit (next_proto ∷ n ∷ p) = next_ext next_proto ((n + first) * unit)
sized_ext first unit _ = unreadable

abbrev pub fragment_ext : Bytes → NextExt
fragment_ext [] = unreadable
fragment_ext (next_proto ∷ p) = next_ext next_proto 8

-- `fgen_ipv6_get_next_ext`.
unfoldable pub ipv6_get_next_ext : Bytes → ℕ → NextExt
ipv6_get_next_ext p proto =
    if proto == 51
    then sized_ext 2 4 p
    else if is_options proto
    then sized_ext 1 8 p
    else if proto == 44
    then fragment_ext p
    else einval

-- The pseudo header of RFC 8200: the addresses, the length of the payload in four bytes, three
-- zeros and the protocol.
unfoldable pub rfc_psd_hdr : Bytes → Bytes
unfolding ipv6_addrs
rfc_psd_hdr hdr =
    ipv6_addrs hdr ++ (0 ∷ 0 ∷ byte_at hdr 4 ∷ byte_at hdr 5 ∷ 0 ∷ 0 ∷ 0 ∷ byte_at hdr 6 ∷ [])

ipv6_addrs-length : (hdr : Bytes) → 40 ≤ length hdr → length (ipv6_addrs hdr) ≡ 32
unfolding ipv6_addrs
ipv6_addrs-length hdr long = omega (arith, length-take 32 (drop 8 hdr), length-drop 8 hdr)

All-drop : (n : ℕ) (xs : Bytes) → IsBytes xs → IsBytes (drop n xs)
All-drop zero xs h = h
All-drop (suc n) [] h = tt
All-drop (suc n) (x ∷ xs) h = All-drop n xs h.1

ipv6_addrs-IsBytes : (hdr : Bytes) → IsBytes hdr → IsBytes (ipv6_addrs hdr)
unfolding ipv6_addrs
ipv6_addrs-IsBytes hdr bytes = All-take (λ x. x < 256) 32 (drop 8 hdr) (All-drop 8 hdr bytes)

ipv6_phdr_cksum-ones :
    (hdr : Bytes)
    → IsBytes hdr
    → 40 ≤ length hdr
    → ipv6_phdr_cksum hdr ≡ ones (word_sum (rfc_psd_hdr hdr))
unfolding ipv6_phdr_cksum ipv6_psd_hdr rfc_psd_hdr word_sum
ipv6_phdr_cksum-ones hdr bytes long =
    let addrs = ipv6_addrs hdr in
    let size = ipv6_addrs-length hdr long in
    let octets : IsBytes addrs = ipv6_addrs-IsBytes hdr bytes in
    let b4 = byte_at-lt hdr 4 bytes in
    let b5 = byte_at-lt hdr 5 bytes in
    let b6 = byte_at-lt hdr 6 bytes in
    let tail = 0 ∷ 0 ∷ byte_at hdr 4 ∷ byte_at hdr 5 ∷ 0 ∷ 0 ∷ 0 ∷ byte_at hdr 6 ∷ [] in
    let total = word_sum-append addrs tail 16 size in
    let first = raw_cksum_sum-word_sum addrs 0 (omega arith) in
    let second =
      raw_cksum_sum-word_sum (ipv6_psd_hdr hdr) (raw_cksum_sum addrs 0) (omega (arith, first)) in
    let same : raw_cksum_sum (ipv6_psd_hdr hdr) (raw_cksum_sum addrs 0)
        ≡ word_sum (rfc_psd_hdr hdr) =
      omega (arith, first, second, total, size, word_sum-le addrs octets) in
    ap raw_cksum_reduce same
    ∙ raw_cksum_reduce-ones (word_sum (rfc_psd_hdr hdr))
        (omega (arith, total, size, word_sum-le addrs octets))

ones-both : (a b : ℕ) → ones (ones a + ones b) ≡ ones (a + b)
ones-both a b =
    let swapped : a + ones b ≡ ones b + a = omega arith in
    let back : b + a ≡ a + b = omega arith in
    ones-add_left a (ones b) ∙ ap ones swapped ∙ ones-add_left b a ∙ ap ones back

if-and_true : (w : ℕ) → (if w == 0 then 65535 else w) ≡ (if (w == 0) && true then 65535 else w)
if-and_true w = ground arith

-- `fgen_ipv6_udptcp_cksum` of a readable segment whose checksum field is zero gives a value other
-- than zero, and with that value stored in the field, in the order of the machine, the ones'
-- complement sum of the segment and the pseudo header of RFC 8200 is all ones. The field stands at
-- an even offset, inside the n bytes that the IPv6 header announces.
pub ipv6_udptcp_cksum-stored :
    (hdr pre post : Bytes) (k n : ℕ)
    → IsBytes hdr
    → 40 ≤ length hdr
    → length pre ≡ 2 * k
    → IsBytes (with_field pre 0 post)
    → be16_at hdr 4 ≡ n
    → length pre + 2 ≤ n
    → n ≤ length pre + 2 + length post
    → n ≤ 65535
    → (c : ℕ) × (ipv6_udptcp_cksum hdr (with_field pre 0 post) ≡ some c)
      × (0 < c)
      × (ones (word_sum (rfc_psd_hdr hdr) + word_sum (take n (with_field pre c post))) ≡ 0xffff)
unfolding ipv6_udptcp_cksum
ipv6_udptcp_cksum-stored hdr pre post k n hdr_bytes long even bytes announced least readable short =
    (c, computed, ground arith, accepted)
  where
    m : ℕ
    m = n - (length pre + 2)

    W : ℕ
    W = word_sum (with_field pre 0 (take m post))

    P : ℕ
    P = word_sum (rfc_psd_hdr hdr)

    T : ℕ
    T = W + P

    c : ℕ
    c = if (65535 - ones T == 0) && true then 65535 else 65535 - ones T

    taken : (v : ℕ) → take n (with_field pre v post) ≡ with_field pre v (take m post)
    taken v = take-with_field pre v post m n (omega arith)

    segment : IsBytes (with_field pre 0 (take m post))
    segment = IsBytes-take-with_field pre post m bytes

    phdr : ipv6_phdr_cksum hdr ≡ ones P
    phdr = ipv6_phdr_cksum-ones hdr hdr_bytes long

    segment_sum : raw_cksum (with_field pre 0 (take m post)) ≡ ones W
    segment_sum =
        raw_cksum-ones _ segment
          (omega (arith, length-with_field pre 0 (take m post), length-take m post))

    folded :
        u16 (fold16 (u32 (raw_cksum (with_field pre 0 (take m post)) + ipv6_phdr_cksum hdr)))
        ≡ ones T
    folded =
        fold16-ones _ _ (raw_cksum-lt (with_field pre 0 (take m post)))
          (omega (arith, phdr, ones-lt P))
        ∙ ap ones (omega (arith, phdr, segment_sum))
        ∙ ones-both W P

    computed : add_ipv6_phdr hdr (read (with_field pre 0 post) (be16_at hdr 4)) ≡ some c
    computed =
        ap (λ l. add_ipv6_phdr hdr (read (with_field pre 0 post) l)) announced
        ∙ ap (add_ipv6_phdr hdr) (read_all _ n (omega (arith, length-with_field pre 0 post)))
        ∙ ap (λ s. some (finish_cksum (u32 (raw_cksum s + ipv6_phdr_cksum hdr)))) (taken 0)
        ∙ ap (λ w. some (if w == 0 then 0xffff else w)) (ap (λ (t : ℕ). 65535 - t) folded)
        ∙ ap some (if-and_true (65535 - ones T))

    accepted : ones (P + word_sum (take n (with_field pre c post))) ≡ 0xffff
    accepted =
        ap (λ s. ones (P + word_sum s)) (taken c)
        ∙ ap ones (omega (arith, word_sum-with_field pre c (take m post) k even))
        ∙ ones-add_swapped true T
