-- ===== src/Cksum/Verify.antt =====
-- A checksum that is stored where it was computed over zeros is accepted by the verification.
use fgen.Prelude.{
  ℕ, zero, suc, ◌+◌, ◌-◌, ◌*◌, ◌/◌, ◌%◌, ◌^◌, ◌≤◌, ◌<◌, ◌≡◌, refl, ◌∙◌, ap, sym, true, some, [],
  ◌∷◌, ◌++◌, arith, length, take, ltb, ◌==◌, if◌then◌else◌, u16, not16, length-append, length-take,
  subst, All-parts, All-append, All-take, ◌&&◌, Bool-cases, inl, inr, u32,
}
use fgen.CString.{Bytes}
use fgen.Cksum.{
  raw_cksum, read, fold16, ipv4_hdr_len, ipv4_cksum, complement, byte_at, be16_at, add_phdr,
  for_proto, is_ones, ipproto_udp, psd_hdr, udptcp_sum, ipv4_udptcp_cksum, ipv4_udptcp_cksum_verify,
  ipv4_phdr_cksum,
}
use fgen.Cksum.Sum.{word_sum, word_sum-append, IsBytes}
use fgen.Cksum.Fold.{
  ones, ones-lt, ones-add_left, ones-add_complement, fold16-ones, raw_cksum-ones, raw_cksum-lt,
  ones-add_swapped,
}

-- A buffer with a 16-bit field behind k words.
abbrev pub with_field : Bytes → ℕ → Bytes → Bytes
with_field pre v post = pre ++ (v % 256 ∷ v / 256 ∷ post)

pub word_sum-with_field :
    (pre : Bytes) (v : ℕ) (post : Bytes) (k : ℕ)
    → length pre ≡ 2 * k
    → word_sum (with_field pre v post) ≡ word_sum (with_field pre 0 post) + v
word_sum-with_field pre v post k e =
    unfold word_sum in
    omega (
      arith,
      word_sum-append pre (v % 256 ∷ v / 256 ∷ post) k e,
      word_sum-append pre (0 ∷ 0 ∷ post) k e,
    )

pub IsBytes-with_field :
    (pre : Bytes) (v : ℕ) (post : Bytes)
    → IsBytes (with_field pre 0 post)
    → v < 2 ^ 16
    → IsBytes (with_field pre v post)
IsBytes-with_field pre v post h fits =
    let r = All-parts (λ x. x < 256) pre (0 ∷ 0 ∷ post) h in
    All-append (λ x. x < 256) pre (v % 256 ∷ v / 256 ∷ post) r.0
      (omega arith, (omega arith, r.1.1.1))

pub length-with_field :
    (pre : Bytes) (v : ℕ) (post : Bytes)
    → length (with_field pre v post) ≡ length pre + 2 + length post
length-with_field pre v post = omega (arith, length-append pre (v % 256 ∷ v / 256 ∷ post))

-- Storing the complement of the checksum of a buffer with a zero field makes its checksum 0xffff.
pub raw_cksum-with_field :
    (pre post : Bytes) (k : ℕ)
    → length pre ≡ 2 * k
    → IsBytes (with_field pre 0 post)
    → length pre + 2 + length post ≤ 65535
    → raw_cksum (with_field pre (not16 (raw_cksum (with_field pre 0 post))) post) ≡ 0xffff
raw_cksum-with_field pre post k even bytes short =
    let c : ℕ = not16 (raw_cksum (with_field pre 0 post)) in
    let S : ℕ = word_sum (with_field pre 0 post) in
    let before : raw_cksum (with_field pre 0 post) ≡ ones S =
      raw_cksum-ones _ bytes (omega (arith, length-with_field pre 0 post)) in
    let after : raw_cksum (with_field pre c post) ≡ ones (word_sum (with_field pre c post)) =
      raw_cksum-ones _ (IsBytes-with_field pre c post bytes (omega arith))
        (omega (arith, length-with_field pre c post)) in
    let small : c ≡ 65535 - ones S = omega (arith, before, ones-lt S) in
    after
    ∙ ap ones (word_sum-with_field pre c post k even)
    ∙ ap (λ t. ones (S + t)) small
    ∙ ones-add_complement S

pub take-with_field :
    (pre : Bytes) (v : ℕ) (post : Bytes) (m n : ℕ)
    → n ≡ length pre + 2 + m
    → take n (with_field pre v post) ≡ with_field pre v (take m post)
take-with_field [] v post m zero e = absurd (omega arith)
take-with_field [] v post m (suc zero) e = absurd (omega arith)
take-with_field [] v post m (suc (suc n)) e =
    ap (λ k. v % 256 ∷ v / 256 ∷ take k post) (omega arith)
take-with_field (x ∷ pre) v post m zero e = absurd (omega arith)
take-with_field (x ∷ pre) v post m (suc n) e =
    ap (λ s. x ∷ s) (take-with_field pre v post m n (omega arith))

pub read_all : (b : Bytes) (n : ℕ) → n ≤ length b → read b n ≡ some (take n b)
unfolding read
read_all b n h = ground arith

ipv4_hdr_len-with_field :
    (pre : Bytes) (v w : ℕ) (post : Bytes)
    → 0 < length pre
    → ipv4_hdr_len (with_field pre v post) ≡ ipv4_hdr_len (with_field pre w post)
unfolding ipv4_hdr_len
ipv4_hdr_len-with_field [] v w post h = absurd (omega arith)
ipv4_hdr_len-with_field (x ∷ pre) v w post h = refl

pub IsBytes-take-with_field :
    (pre post : Bytes) (m : ℕ)
    → IsBytes (with_field pre 0 post)
    → IsBytes (with_field pre 0 (take m post))
IsBytes-take-with_field pre post m h =
    let r = All-parts (λ x. x < 256) pre (0 ∷ 0 ∷ post) h in
    All-append (λ x. x < 256) pre (0 ∷ 0 ∷ take m post) r.0
      (omega arith, (omega arith, All-take (λ x. x < 256) m post r.1.1.1))

ipv4_hdr_len-le : (hdr : Bytes) → ipv4_hdr_len hdr ≤ 60
unfolding ipv4_hdr_len
ipv4_hdr_len-le hdr = omega arith

-- `fgen_ipv4_cksum` of a readable header whose checksum field, at byte 10, is zero gives a value;
-- with that value stored in the field, in the order of the machine, the checksum of the header is
-- 0xffff, which is what a receiver tests. The header length may be anything from 12 to 60 bytes.
pub ipv4_cksum-stored :
    (pre post : Bytes)
    → length pre ≡ 10
    → IsBytes (with_field pre 0 post)
    → 12 ≤ ipv4_hdr_len (with_field pre 0 post)
    → ipv4_hdr_len (with_field pre 0 post) ≤ 12 + length post
    → (c : ℕ) × (ipv4_cksum (with_field pre 0 post) ≡ some c)
      × (raw_cksum (take (ipv4_hdr_len (with_field pre c post)) (with_field pre c post)) ≡ 0xffff)
unfolding ipv4_cksum
ipv4_cksum-stored pre post ten bytes least fits = (c, computed, accepted)
  where
    n : ℕ
    n = ipv4_hdr_len (with_field pre 0 post)

    m : ℕ
    m = n - 12

    c : ℕ
    c = not16 (raw_cksum (with_field pre 0 (take m post)))

    taken : (v : ℕ) → take n (with_field pre v post) ≡ with_field pre v (take m post)
    taken v = take-with_field pre v post m n (omega arith)

    computed : complement (read (with_field pre 0 post) n) ≡ some c
    computed =
        ap complement (read_all _ n (omega (arith, length-with_field pre 0 post)))
        ∙ ap (λ s. some (not16 (raw_cksum s))) (taken 0)

    accepted :
        raw_cksum (take (ipv4_hdr_len (with_field pre c post)) (with_field pre c post)) ≡ 0xffff
    accepted =
        ap (λ l. raw_cksum (take l (with_field pre c post)))
          (ipv4_hdr_len-with_field pre c 0 post (omega arith))
        ∙ ap raw_cksum (taken c)
        ∙ raw_cksum-with_field pre (take m post) 5 (omega arith)
            (IsBytes-take-with_field pre post m bytes)
            (omega (arith, length-take m post, ipv4_hdr_len-le (with_field pre 0 post)))

ipv4_phdr_cksum-lt : (hdr : Bytes) → ipv4_phdr_cksum hdr < 2 ^ 16
unfolding ipv4_phdr_cksum
ipv4_phdr_cksum-lt hdr = raw_cksum-lt (psd_hdr hdr)

pub byte_at-lt : (b : Bytes) (i : ℕ) → IsBytes b → byte_at b i < 256
byte_at-lt [] i h = omega arith
byte_at-lt (x ∷ b) zero h = h.0
byte_at-lt (x ∷ b) (suc i) h = byte_at-lt b i h.1

-- The sum of `__ipv4_udptcp_cksum` on a datagram of n readable bytes.
udptcp_sum-ones :
    (hdr l4 : Bytes) (n : ℕ)
    → be16_at hdr 2 ≡ ipv4_hdr_len hdr + n
    → n ≤ length l4
    → n ≤ 65535
    → IsBytes (take n l4)
    → udptcp_sum hdr l4 ≡ some (ones (word_sum (take n l4) + ipv4_phdr_cksum hdr))
unfolding udptcp_sum
udptcp_sum-ones hdr l4 n e readable short bytes =
    elim (Bool-cases (ltb (be16_at hdr 2) (ipv4_hdr_len hdr))) [
      | inl t ↦ absurd (ground arith)
      | inr t ↦ rw t (
          ap (λ k. add_phdr hdr (read l4 k)) len
          ∙ ap (add_phdr hdr) (read_all l4 n readable)
          ∙ ap some total)
    ]
  where
    len : be16_at hdr 2 - ipv4_hdr_len hdr ≡ n
    len = omega arith

    total :
        u16 (fold16 (u32 (raw_cksum (take n l4) + ipv4_phdr_cksum hdr)))
        ≡ ones (word_sum (take n l4) + ipv4_phdr_cksum hdr)
    total =
        fold16-ones _ _ (raw_cksum-lt (take n l4)) (ipv4_phdr_cksum-lt hdr)
        ∙ ap (λ t. ones (t + ipv4_phdr_cksum hdr))
            (raw_cksum-ones (take n l4) bytes (omega (arith, length-take n l4)))
        ∙ ones-add_left _ _

-- `fgen_ipv4_udptcp_cksum` of a readable datagram whose checksum field is zero gives a value, and
-- with that value stored in the field `fgen_ipv4_udptcp_cksum_verify` accepts the datagram, over
-- UDP, where a computed zero is replaced by all ones, and over every other protocol. The field
-- stands at an even offset, inside the n bytes that the length of the header announces.
pub ipv4_udptcp_cksum-verified :
    (hdr pre post : Bytes) (k n : ℕ)
    → length pre ≡ 2 * k
    → IsBytes (with_field pre 0 post)
    → be16_at hdr 2 ≡ ipv4_hdr_len hdr + n
    → length pre + 2 ≤ n
    → n ≤ length pre + 2 + length post
    → n ≤ 65535
    → (c : ℕ) × (ipv4_udptcp_cksum hdr (with_field pre 0 post) ≡ some c)
      × (ipv4_udptcp_cksum_verify hdr (with_field pre c post) ≡ some true)
unfolding ipv4_udptcp_cksum ipv4_udptcp_cksum_verify
ipv4_udptcp_cksum-verified hdr pre post k n even bytes announced least readable short =
    (c, computed, accepted)
  where
    m : ℕ
    m = n - (length pre + 2)

    T : ℕ
    T = word_sum (with_field pre 0 (take m post)) + ipv4_phdr_cksum hdr

    c : ℕ
    c = if (65535 - ones T == 0) && (byte_at hdr 9 == ipproto_udp) then 65535 else 65535 - ones T

    fits : c < 2 ^ 16
    fits = ground arith

    taken : (v : ℕ) → take n (with_field pre v post) ≡ with_field pre v (take m post)
    taken v = take-with_field pre v post m n (omega arith)

    bytes_of : (v : ℕ) → v < 2 ^ 16 → IsBytes (with_field pre v (take m post))
    bytes_of v h =
        IsBytes-with_field pre v (take m post) (IsBytes-take-with_field pre post m bytes) h

    sum_of : (v : ℕ) → v < 2 ^ 16 → udptcp_sum hdr (with_field pre v post) ≡ some (ones (T + v))
    sum_of v h =
        udptcp_sum-ones hdr (with_field pre v post) n announced
          (omega (arith, length-with_field pre v post)) short
          (subst IsBytes (sym (taken v)) (bytes_of v h))
        ∙ ap (λ s. some (ones (word_sum s + ipv4_phdr_cksum hdr))) (taken v)
        ∙ ap (λ t. some (ones t)) (omega (arith, word_sum-with_field pre v (take m post) k even))

    complements : not16 (ones (T + 0)) ≡ 65535 - ones T
    complements =
        let none_added : T + 0 ≡ T = omega arith in
        ap (λ t. not16 (ones t)) none_added ∙ omega (arith, ones-lt T)

    computed : for_proto (byte_at hdr 9) (udptcp_sum hdr (with_field pre 0 post)) ≡ some c
    computed =
        ap (for_proto (byte_at hdr 9)) (sum_of 0 (omega arith))
        ∙ ap (λ w. some (if w == 0 && byte_at hdr 9 == ipproto_udp then 0xffff else w)) complements

    accepted : is_ones (udptcp_sum hdr (with_field pre c post)) ≡ some true
    accepted =
        ap is_ones (sum_of c fits)
        ∙ ap (λ t. some (t == 0xffff)) (ones-add_swapped (byte_at hdr 9 == ipproto_udp) T)
