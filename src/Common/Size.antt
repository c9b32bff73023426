-- ===== src/Common/Size.antt =====
-- lib/include/fgen_common.h: sizes with a suffix, as text.
use fgen.Prelude.{ℕ, ◌*◌, ◌||◌, Option, none, some, [], ◌∷◌, ◌==◌, if◌then◌else◌, u64}
use fgen.CString.{Bytes}
use fgen.CString.Number.{skip_space}
use fgen.CString.Unsigned.{strtoull}

-- The switch on the suffix, whose cases fall through.
abbrev pub scaled : ℕ → Bytes → ℕ
scaled size [] = size
scaled size (c ∷ s) =
    if c == b'G' || c == b'g'
    then u64 (u64 (u64 (size * 1024) * 1024) * 1024)
    else if c == b'M' || c == b'm'
    then u64 (u64 (size * 1024) * 1024)
    else if c == b'K' || c == b'k'
    then u64 (size * 1024)
    else size

-- One blank may stand in front of the suffix.
abbrev pub with_suffix : ℕ → Bytes → ℕ
with_suffix size [] = size
with_suffix size (c ∷ s) = if c == b' ' then scaled size s else scaled size (c ∷ s)

abbrev pub size_of : Option (ℕ × Bytes) → ℕ
size_of none = 0
size_of (some (size, rest)) = with_suffix size rest

abbrev pub unless_minus : Bytes → ℕ → ℕ
unless_minus [] size = size
unless_minus (c ∷ s) size = if c == b'-' then 0 else size

-- `fgen_str_to_size`.
unfoldable pub str_to_size : Bytes → ℕ
unfolding skip_space strtoull
str_to_size s = let t = skip_space s in unless_minus t (size_of (strtoull 0 t))
