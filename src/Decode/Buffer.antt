-- ===== src/Decode/Buffer.antt =====
-- The text buffer of the decoder: a text is appended whole or not at all.
use fgen.Prelude.{
  ℕ, zero, suc, ◌+◌, ◌-◌, ◌*◌, ◌≤◌, ◌<◌, ◌≡◌, refl, ◌∙◌, ap, sym, Bool, true, false, Option, none,
  some, [], ◌∷◌, ◌++◌, leb, if◌then◌else◌, length, take, arith, length-append, append-nil, subst,
  Bool-cases, inl, inr,
}
use fgen.CString.{Bytes}
use fgen.Decode.{
  Dc, append, append_opened, grow_and_cat, cat, opened, max_fstr_len, max_string_length,
  extra_space,
}

-- The text so far.
abbrev pub text_of : Option Bytes → Bytes
text_of none = []
text_of (some b) = b

-- The text and its NUL fit the buffer, which is no longer than 4096 bytes, and `used` counts them.
abbrev pub Fits : Option Bytes → ℕ → ℕ → Type 0
Fits none buf_len used = Unit
Fits (some b) buf_len used =
    (used ≡ length b) × (length b < buf_len) × (256 ≤ buf_len) × (buf_len ≤ 4096)

-- The call touched the buffer alone.
pub record SameData (dc dc' : Dc) : Type 0 where
  pub frame_data : dc'.frame_data ≡ dc.frame_data
  pub data_len : dc'.data_len ≡ dc.data_len
  pub data_off : dc'.data_off ≡ dc.data_off

abbrev added : Bool → Bytes → Bytes
added r text = if r then text else []

-- A call of `_append`: the buffer still fits, and its text is longer by the whole text on success,
-- and as before on -1.
pub record Appended (text : Bytes) (dc : Dc) (r : Bool × Dc) : Type 0 where
  pub fits : Fits r.1.buffer r.1.buf_len r.1.used
  pub whole : text_of r.1.buffer ≡ text_of dc.buffer ++ added r.0 text
  pub same : SameData dc r.1

take-all : (s : Bytes) (n : ℕ) → length s ≤ n → take n s ≡ s
take-all [] zero h = refl
take-all [] (suc n) h = refl
take-all (x ∷ s) zero h = absurd (omega arith)
take-all (x ∷ s) (suc n) h = ap (λ t. x ∷ t) (take-all s n (omega arith))

module _ (text : Bytes) (dc : Dc) where
  -- The buffer is long enough for the text.
  cat-Appended :
      (old str : Bytes) (dc' : Dc)
      → SameData dc dc'
      → text_of dc.buffer ≡ old
      → str ≡ text
      → length text + length old + 64 ≤ dc'.buf_len
      → 256 ≤ dc'.buf_len
      → dc'.buf_len ≤ 4096
      → Appended text dc (true, cat dc' old str)
  cat-Appended old str dc' same was e long least most = record {
    fits = (counted, omega (arith, len), least, most);
    whole = ap (λ t. old ++ t) kept ∙ ap (λ o. o ++ text) (sym was);
    same = record {
      frame_data = same.frame_data;
      data_len = same.data_len;
      data_off = same.data_off;
    };
  }
    where
      kept : take (dc'.buf_len - 1 - length old) str ≡ text
      kept = take-all str (dc'.buf_len - 1 - length old) (omega (arith, ap length e)) ∙ e

      len : length (old ++ take (dc'.buf_len - 1 - length old) str) ≡ length old + length text
      len = ap (λ t. length (old ++ t)) kept ∙ length-append old text

      counted :
          (if leb dc'.buf_len (length old) then dc'.buf_len else length old) + length str
          ≡ length (old ++ take (dc'.buf_len - 1 - length old) str)
      counted = ground (arith, len, ap length e)

  unchanged :
      (dc' : Dc)
      → SameData dc dc'
      → text_of dc'.buffer ≡ text_of dc.buffer
      → Fits dc'.buffer dc'.buf_len dc'.used
      → Appended text dc (false, dc')
  unchanged dc' same was fits = record {
    fits = fits;
    whole = was ∙ sym (append-nil (text_of dc.buffer));
    same = same;
  }

  -- The second half of `_append`, on an open buffer.
  grow_and_cat-Appended :
      (room : ℕ → Bool) (old str : Bytes) (dc' : Dc)
      → SameData dc dc'
      → dc'.buffer ≡ some old
      → text_of dc.buffer ≡ old
      → (length text ≤ 4094 → str ≡ text)
      → Fits dc'.buffer dc'.buf_len dc'.used
      → Appended text dc (grow_and_cat room (length text) str old dc')
  grow_and_cat-Appended room old str dc' same is_open was cut fits =
      elim (Bool-cases (leb dc'.buf_len nbytes)) [
        | inl grows ↦ rw grows (elim (Bool-cases (leb max_fstr_len nbytes)) [
          | inl too_long ↦ rw too_long (unchanged dc' same still fits)
          | inr fine ↦ rw fine (elim (Bool-cases (room nbytes)) [
            | inl has_room ↦ rw has_room (
                cat-Appended old str (record dc' { buf_len = nbytes })
                  (record {
                    frame_data = same.frame_data;
                    data_len = same.data_len;
                    data_off = same.data_off;
                  })
                  was (cut (ground arith)) (omega (arith, open_fits.0)) (ground arith)
                  (ground arith))
            | inr no_room ↦ rw no_room (unchanged dc' same still fits)
          ])
        ])
        | inr stays ↦ rw stays (
            let enough : nbytes < dc'.buf_len = ground arith in
            cat-Appended old str dc' same was (cut (omega (arith, open_fits.3)))
              (omega (arith, open_fits.0)) open_fits.2 open_fits.3)
      ]
    where
      nbytes : ℕ
      nbytes = length text + dc'.used + extra_space

      open_fits : Fits (some old) dc'.buf_len dc'.used
      open_fits = subst (λ o. Fits o dc'.buf_len dc'.used) is_open fits

      still : text_of dc'.buffer ≡ text_of dc.buffer
      still = ap text_of is_open ∙ sym was

SameData-refl : (dc : Dc) → SameData dc dc
SameData-refl dc = record { frame_data = refl; data_len = refl; data_off = refl }

append_opened-Appended :
    (room : ℕ → Bool) (text : Bytes) (dc : Dc) (b : Option Bytes)
    → dc.buffer ≡ b
    → Fits dc.buffer dc.buf_len dc.used
    → Appended text dc (append_opened room text dc (opened (room (4 * extra_space)) dc b))
append_opened-Appended room text dc none closed fits = elim (Bool-cases (room (4 * extra_space))) [
  | inl has_room ↦ rw has_room (
      grow_and_cat-Appended text dc room [] (take (max_string_length - 2) text)
        (record dc { buffer = some []; buf_len = 4 * extra_space; used = 0 })
        (record { frame_data = refl; data_len = refl; data_off = refl }) refl (ap text_of closed)
        (take-all text (max_string_length - 2)) (refl, omega arith, omega arith, omega arith))
  | inr no_room ↦ rw no_room (unchanged text dc dc (SameData-refl dc) refl fits)
]
append_opened-Appended room text dc (some old) is_open fits =
    grow_and_cat-Appended text dc room old (take (max_string_length - 2) text) dc (SameData-refl dc)
      is_open (ap text_of is_open) (take-all text (max_string_length - 2)) fits

-- `_append` on a decoder whose text fits its buffer appends the whole text, growing the buffer
-- where it must, or returns -1 and leaves the text as it was, whatever the heap answers. The text
-- with its NUL still fits the buffer, which is 256 to 4096 bytes long; nothing else is changed.
pub append-Appended :
    (room : ℕ → Bool) (text : Bytes) (dc : Dc)
    → Fits dc.buffer dc.buf_len dc.used
    → Appended text dc (append room text dc)
unfolding append
append-Appended room text dc fits = append_opened-Appended room text dc dc.buffer refl fits
