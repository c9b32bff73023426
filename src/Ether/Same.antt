-- ===== src/Ether/Same.antt =====
-- lib/include/net/fgen_ether.h: `ether_addr_is_same` against the equality of the octets.
use Prim.Native.Nat.{bit_xor, bit_xor-bitwise, differ}
use fgen.Prelude.{
  ℕ, zero, suc, ◌+◌, ◌*◌, ◌/◌, ◌%◌, ◌<◌, true, List, [], ◌∷◌, bit_or, ◌==◌, length, All, ==_iff,
  subst, ◌≡◌, refl, sym, ap, ◌∙◌, ◌↔◌, arith,
}
use fgen.Prelude.Bits.{by_halves, digits_step}
use fgen.Prelude.BitLaws.{le-bit_or}
use fgen.Ether.Address.{addr_word, ether_addr_is_same}

differ-zero : (x y : ℕ) → differ x y ≡ 0 → x ≡ y
differ-zero zero y e = sym e
differ-zero (suc x) zero e = absurd (omega arith)
differ-zero (suc x) (suc y) e = ap suc (differ-zero x y e)

differ_self : (x : ℕ) → differ x x ≡ 0
differ_self zero = refl
differ_self (suc x) = differ_self x

zero-bit_xor : (b : ℕ) → bit_xor 0 b ≡ b
zero-bit_xor = bit_xor-bitwise 0

bit_xor_step :
    (a b : ℕ) → 0 < a → bit_xor a b ≡ bit_xor (a / 2) (b / 2) * 2 + differ (a % 2) (b % 2)
bit_xor_step a b pos =
    bit_xor-bitwise a b
    ∙ digits_step (λ y. y) differ a b pos
    ∙ ap (λ (t : ℕ). t * 2 + differ (a % 2) (b % 2)) (sym (bit_xor-bitwise (a / 2) (b / 2)))

bit_xor-zero_iff : (a b : ℕ) → bit_xor a b ≡ 0 → a ≡ b
bit_xor-zero_iff =
    by_halves (λ a. (b : ℕ) → bit_xor a b ≡ 0 → a ≡ b) (λ b e. sym (sym (zero-bit_xor b) ∙ e))
      (λ a pos ih b e.
        let step = bit_xor_step a b pos in
        let high = ih (b / 2) (omega arith) in
        let low = differ-zero (a % 2) (b % 2) (omega arith) in omega (arith, high, low))

bit_xor_self : (a : ℕ) → bit_xor a a ≡ 0
bit_xor_self =
    by_halves (λ a. bit_xor a a ≡ 0) (zero-bit_xor 0)
      (λ a pos ih. omega (arith, bit_xor_step a a pos, ih, differ_self (a % 2)))

-- The octets of an address.
six : (ea : List ℕ) → length ea ≡ 6 → (a b c d e f : ℕ) × (ea ≡ a ∷ b ∷ c ∷ d ∷ e ∷ f ∷ [])
six [] h = absurd (omega arith)
six (a ∷ []) h = absurd (omega arith)
six (a ∷ b ∷ []) h = absurd (omega arith)
six (a ∷ b ∷ c ∷ []) h = absurd (omega arith)
six (a ∷ b ∷ c ∷ d ∷ []) h = absurd (omega arith)
six (a ∷ b ∷ c ∷ d ∷ e ∷ []) h = absurd (omega arith)
six (a ∷ b ∷ c ∷ d ∷ e ∷ f ∷ []) h = (a, b, c, d, e, f, refl)
six (a ∷ b ∷ c ∷ d ∷ e ∷ f ∷ g ∷ ea) h = absurd (omega arith)

same-words :
    (ea1 ea2 : List ℕ)
    → ether_addr_is_same ea1 ea2 ≡ true
    → (addr_word ea1 0 ≡ addr_word ea2 0)
      × (addr_word ea1 1 ≡ addr_word ea2 1)
      × (addr_word ea1 2 ≡ addr_word ea2 2)
unfolding ether_addr_is_same
same-words ea1 ea2 t =
    let d0 = bit_xor (addr_word ea1 0) (addr_word ea2 0) in
    let d1 = bit_xor (addr_word ea1 1) (addr_word ea2 1) in
    let d2 = bit_xor (addr_word ea1 2) (addr_word ea2 2) in
    let none_set : bit_or (bit_or d0 d1) d2 ≡ 0 = (==_iff (bit_or (bit_or d0 d1) d2) 0).0 t in
    let outer = le-bit_or (bit_or d0 d1) d2 in
    let inner = le-bit_or d0 d1 in
    (
      bit_xor-zero_iff (addr_word ea1 0) (addr_word ea2 0) (omega (arith, none_set, outer, inner)),
      bit_xor-zero_iff (addr_word ea1 1) (addr_word ea2 1) (omega (arith, none_set, outer, inner)),
      bit_xor-zero_iff (addr_word ea1 2) (addr_word ea2 2) (omega (arith, none_set, outer)),
    )

same_self : (ea : List ℕ) → ether_addr_is_same ea ea ≡ true
unfolding ether_addr_is_same
same_self ea =
    let d = λ (i : ℕ). bit_xor (addr_word ea i) (addr_word ea i) in
    let e = λ (i : ℕ). bit_xor_self (addr_word ea i) in
    ap (λ t. bit_or (bit_or t (d 1)) (d 2) == 0) (e 0)
    ∙ ap (λ t. bit_or (bit_or 0 t) (d 2) == 0) (e 1)
    ∙ ap (λ t. bit_or (bit_or 0 0) t == 0) (e 2)

same_pair :
    (a b a' b' : ℕ) (os os' : List ℕ)
    → a < 256
    → a' < 256
    → a + 256 * b ≡ a' + 256 * b'
    → os ≡ os'
    → a ∷ b ∷ os ≡ a' ∷ b' ∷ os'
same_pair a b a' b' os os' small small' word rest =
    let first : a ≡ a' = omega arith in
    let second : b ≡ b' = omega arith in
    ap (λ t. t ∷ b ∷ os) first ∙ ap (λ t. a' ∷ t ∷ os) second ∙ ap (λ l. a' ∷ b' ∷ l) rest

words-same :
    (ea1 ea2 : List ℕ)
    → length ea1 ≡ 6
    → length ea2 ≡ 6
    → All (λ o. o < 256) ea1
    → All (λ o. o < 256) ea2
    → addr_word ea1 0 ≡ addr_word ea2 0
    → addr_word ea1 1 ≡ addr_word ea2 1
    → addr_word ea1 2 ≡ addr_word ea2 2
    → ea1 ≡ ea2
unfolding addr_word
words-same ea1 ea2 l1 l2 o1 o2 w0 w1 w2 =
    let (a, b, c, d, e, f, is1) = six ea1 l1 in
    let (a', b', c', d', e', f', is2) = six ea2 l2 in
    let s1 = subst (All (λ o. o < 256)) is1 o1 in
    let s2 = subst (All (λ o. o < 256)) is2 o2 in
    let word = λ (i : ℕ). λ (w : addr_word ea1 i ≡ addr_word ea2 i).
      sym (ap (λ l. addr_word l i) is1) ∙ w ∙ ap (λ l. addr_word l i) is2 in
    is1
    ∙ same_pair a b a' b' _ _ s1.0 s2.0 (word 0 w0) (
        same_pair c d c' d' _ _ s1.1.1.0 s2.1.1.0 (word 1 w1)
          (same_pair e f e' f' [] [] s1.1.1.1.1.0 s2.1.1.1.1.0 (word 2 w2) refl))
    ∙ sym is2

-- On addresses of six octets `ether_addr_is_same`, which compares them by words, is equality.
pub ether_addr_is_same_iff :
    (ea1 ea2 : List ℕ)
    → length ea1 ≡ 6
    → length ea2 ≡ 6
    → All (λ o. o < 256) ea1
    → All (λ o. o < 256) ea2
    → (ether_addr_is_same ea1 ea2 ≡ true) ↔ (ea1 ≡ ea2)
ether_addr_is_same_iff ea1 ea2 l1 l2 o1 o2 = (
  λ t. let (w0, w1, w2) = same-words ea1 ea2 t in words-same ea1 ea2 l1 l2 o1 o2 w0 w1 w2,
  λ e. subst (λ ea. ether_addr_is_same ea1 ea ≡ true) e (same_self ea1),
)
