-- ===== src/Ether/Address.antt =====
-- lib/include/net/fgen_ether.h: the kinds of Ethernet addresses, and addresses in other texts. The
-- words of an address are read low byte first.
use Prim.Native.Nat.{bit_and, bit_xor}
use fgen.Prelude.{
  ℕ, zero, suc, ◌+◌, ◌-◌, ◌*◌, ◌/◌, ◌%◌, Bool, true, ◌&&◌, not, Option, none, some, List, [], ◌∷◌,
  ◌++◌, bit_or, ltb, leb, ◌==◌, if◌then◌else◌, length, get_elem?, take,
}
use fgen.CString.{Bytes}
use fgen.CString.Unsigned.{strtoull}

abbrev pub octet_or_0 : Option ℕ → ℕ
octet_or_0 none = 0
octet_or_0 (some o) = o

-- `((const uint16_t *)ea)[i]`.
unfoldable pub addr_word : List ℕ → ℕ → ℕ
addr_word ea i = octet_or_0 (get_elem? ea (2 * i)) + 256 * octet_or_0 (get_elem? ea (2 * i + 1))

abbrev pub first_octet : List ℕ → ℕ
first_octet ea = octet_or_0 (get_elem? ea 0)

-- ETHER_GROUP_ADDR and ETHER_LOCAL_ADMIN_ADDR.
abbrev pub group_addr : ℕ
group_addr = 1

abbrev pub local_admin_addr : ℕ
local_admin_addr = 2

-- `ether_addr_is_same`.
unfoldable pub ether_addr_is_same : List ℕ → List ℕ → Bool
unfolding addr_word
ether_addr_is_same ea1 ea2 =
    let diff = λ (i : ℕ). bit_xor (addr_word ea1 i) (addr_word ea2 i) in
    bit_or (bit_or (diff 0) (diff 1)) (diff 2) == 0

-- `ether_addr_is_zero`.
unfoldable pub ether_addr_is_zero : List ℕ → Bool
unfolding addr_word
ether_addr_is_zero ea = bit_or (bit_or (addr_word ea 0) (addr_word ea 1)) (addr_word ea 2) == 0

-- `ether_addr_is_unicast`, `ether_addr_is_multicast` (the bit itself) and
-- `ether_addr_is_broadcast`.
unfoldable pub ether_addr_is_unicast : List ℕ → Bool
ether_addr_is_unicast ea = bit_and (first_octet ea) group_addr == 0

unfoldable pub ether_addr_is_multicast : List ℕ → ℕ
ether_addr_is_multicast ea = bit_and (first_octet ea) group_addr

unfoldable pub ether_addr_is_broadcast : List ℕ → Bool
unfolding addr_word
ether_addr_is_broadcast ea =
    addr_word ea 0 == 0xffff && (addr_word ea 1 == 0xffff && addr_word ea 2 == 0xffff)

-- `ether_addr_is_universal` and `ether_addr_is_local_admin`.
unfoldable pub ether_addr_is_universal : List ℕ → Bool
ether_addr_is_universal ea = bit_and (first_octet ea) local_admin_addr == 0

unfoldable pub ether_addr_is_local_admin : List ℕ → Bool
ether_addr_is_local_admin ea = not (bit_and (first_octet ea) local_admin_addr == 0)

-- `ether_addr_is_valid_assigned`.
unfoldable pub ether_addr_is_valid_assigned : List ℕ → Bool
unfolding ether_addr_is_unicast ether_addr_is_zero
ether_addr_is_valid_assigned ea = ether_addr_is_unicast ea && not (ether_addr_is_zero ea)

abbrev pub low_bytes : ℕ → ℕ → List ℕ
low_bytes zero rnd = []
low_bytes (suc n) rnd = rnd % 256 ∷ low_bytes n (rnd / 256)

abbrev pub mark_local : List ℕ → List ℕ
mark_local [] = []
mark_local (o ∷ os) = bit_or (bit_and o (255 - group_addr)) local_admin_addr ∷ os

-- `ether_random_addr` for the number that `rand` gives.
unfoldable pub ether_random_addr : ℕ → List ℕ
ether_random_addr rnd = mark_local (low_bytes 6 rnd)

-- `ether_addr_copy`: what `ea_to` holds.
unfoldable pub ether_addr_copy : List ℕ → List ℕ
ether_addr_copy ea_from = ea_from

-- `ether_swap` of one word in each, and `ether_addr_swap` of the three words of each address.
unfoldable pub ether_swap : List ℕ × List ℕ → List ℕ × List ℕ
ether_swap (a ∷ b ∷ t, c ∷ d ∷ f) = (c ∷ d ∷ t, a ∷ b ∷ f)
ether_swap p = p

abbrev pub join_words : List ℕ × List ℕ → List ℕ × List ℕ → List ℕ × List ℕ
join_words (t, f) (t', f') = (take 2 t ++ t', take 2 f ++ f')

unfoldable pub swap_words : ℕ → List ℕ → List ℕ → List ℕ × List ℕ
unfolding ether_swap
swap_words zero t f = (t, f)
swap_words (suc n) (a ∷ b ∷ t) (c ∷ d ∷ f) =
    join_words (ether_swap (a ∷ b ∷ [], c ∷ d ∷ [])) (swap_words n t f)
swap_words (suc n) t f = (t, f)

unfoldable pub ether_addr_swap : List ℕ → List ℕ → List ℕ × List ℕ
unfolding swap_words
ether_addr_swap t f = swap_words 3 t f

-- The loop of `fgen_ether_aton`, with the groups that are left; none is NULL.
abbrev pub cons_word : ℕ → Option (List ℕ) → Option (List ℕ)
cons_word w none = none
cons_word w (some ws) = some (w ∷ ws)

unfoldable pub aton_words : ℕ → Bytes → Option (List ℕ)
unfolding strtoull
aton_words zero a = none
aton_words (suc left) a = elim (strtoull 16 a) [
  | none ↦ none
  | some (w, []) ↦ if length a == 0 then none else some (w ∷ [])
  | some (w, c ∷ s) ↦
      let rest = aton_words left s in
      if suc (length s) == length a then none else if c == b':' then cons_word w rest else none
]

abbrev pub all_up_to : ℕ → List ℕ → Bool
all_up_to most [] = true
all_up_to most (w ∷ ws) = leb w most && all_up_to most ws

abbrev pub word_octets : List ℕ → List ℕ
word_octets [] = []
word_octets (w ∷ ws) = w / 256 ∷ w % 256 ∷ word_octets ws

-- Six octets, or three words of two.
abbrev pub octets_of : Option (List ℕ) → Option (List ℕ)
octets_of none = none
octets_of (some ws) =
    if length ws == 6
    then if all_up_to 255 ws then some ws else none
    else if length ws == 3
    then if all_up_to 65535 ws then some (word_octets ws) else none
    else none

-- `fgen_ether_aton`: the octets of the address, or none for NULL; what it has written before it
-- finds a number too large is left out.
unfoldable pub fgen_ether_aton : Bytes → Option (List ℕ)
unfolding aton_words
fgen_ether_aton a = octets_of (aton_words 6 a)

-- "%02x" of one octet, and `inet_mtoa` into a buffer with room for the text.
unfoldable pub low_hex_digit : ℕ → ℕ
low_hex_digit d = if ltb d 10 then b'0' + d else b'a' + d - 10

unfoldable pub inet_mtoa : List ℕ → Bytes
unfolding low_hex_digit
inet_mtoa [] = []
inet_mtoa (o ∷ []) = low_hex_digit (o / 16) ∷ low_hex_digit (o % 16) ∷ []
inet_mtoa (o ∷ p ∷ os) = low_hex_digit (o / 16) ∷ low_hex_digit (o % 16) ∷ b':' ∷ inet_mtoa (p ∷ os)
