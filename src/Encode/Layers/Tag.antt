-- ===== src/Encode/Layers/Tag.antt =====
-- The tag control word that `_encode_vlan` writes: a priority of three bits, the drop eligible
-- bit and a VLAN id of twelve bits.
use fgen.Prelude.{ℕ, ◌+◌, ◌*◌, ◌/◌, ◌%◌, ◌^◌, ◌<◌, ◌≡◌, ◌∙◌, ap, arith, bit_or}
use fgen.Prelude.Bits.{bit_or_fields, bit_or_fields_low, bit_or_above, bit_or_step}
use fgen.Encode.Layers.{tci_word, tci_defaults}

bit_or-tag :
    (v p c : ℕ)
    → v < 2 ^ 12
    → c < 2
    → bit_or (bit_or v (p * 2 ^ 13)) (c * 2 ^ 12) ≡ p * 2 ^ 13 + c * 2 ^ 12 + v
bit_or-tag v p c v_fits c_fits =
    let low : bit_or v (p * 2 ^ 13) ≡ (p * 2) * 2 ^ 12 + v =
      omega (arith, bit_or_fields_low 13 p v (omega arith)) in
    ap (λ t. bit_or t (c * 2 ^ 12)) low
    ∙ bit_or_above 12 (p * 2) v c v_fits
    ∙ omega (arith, bit_or_fields 1 p c (omega arith))

-- A tag whose three fields are set by the parameters `vlan`, `prio` and `cfi`, each in its range,
-- holds the priority in the three high bits, then the `cfi` bit, then the VLAN id; the word fits
-- sixteen bits.
pub tci_word-fields :
    (v p c : ℕ)
    → v < 2 ^ 12
    → p < 2 ^ 3
    → c < 2
    → (tci_word (record { vid = v; prio = p * 2 ^ 13; cfi = c * 2 ^ 12 }) < 2 ^ 16)
      × (tci_word (record { vid = v; prio = p * 2 ^ 13; cfi = c * 2 ^ 12 }) % 2 ^ 12 ≡ v)
      × (tci_word (record { vid = v; prio = p * 2 ^ 13; cfi = c * 2 ^ 12 }) / 2 ^ 12 % 2 ≡ c)
      × (tci_word (record { vid = v; prio = p * 2 ^ 13; cfi = c * 2 ^ 12 }) / 2 ^ 13 ≡ p)
unfolding tci_word
tci_word-fields v p c v_fits p_fits c_fits =
    let word = bit_or-tag v p c v_fits c_fits in
    (omega (arith, word), omega (arith, word), omega (arith, word), omega (arith, word))

bit_or-seven : (v : ℕ) → bit_or v 7 % 8 ≡ 7
bit_or-seven v = omega (arith, bit_or_step v 7, bit_or_step (v / 2) 3, bit_or_step (v / 2 / 2) 1)

-- A tag without the parameter `prio` keeps the priority's default, which is not shifted: whatever
-- the other fields are, the three low bits of the word, and so of the VLAN id, are set.
pub tci_word-default_prio :
    (v c : ℕ) → tci_word (record tci_defaults { vid = v; cfi = c * 2 ^ 12 }) % 2 ^ 3 ≡ 7
unfolding tci_word
tci_word-default_prio v c =
    let w : ℕ = bit_or v 7 in
    let parts : w ≡ w / 2 ^ 12 * 2 ^ 12 + w % 2 ^ 12 = omega arith in
    ap (λ t. bit_or t (c * 2 ^ 12) % 2 ^ 3) parts
    ∙ omega (arith, bit_or_above 12 (w / 2 ^ 12) (w % 2 ^ 12) c (omega arith), bit_or-seven v)
