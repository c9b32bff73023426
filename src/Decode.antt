-- ===== src/Decode.antt =====
-- lib/core/decode.c: frames back to text. The decoder's state, its text buffer and its actions;
-- the protocols are in Layers, `fgen_decode_string` in Hex.
pub mod Buffer
pub mod Format
pub mod Layers
pub mod Steps
pub mod Ends
pub mod Hex
use fgen.Prelude.{
  ℕ, ◌+◌, ◌-◌, ◌*◌, Bool, true, false, Option, none, some, [], ◌++◌, leb, if◌then◌else◌, length,
  take, drop, u16,
}
use fgen.CString.{Bytes}

-- decode_t: `frame_data` holds the bytes that can be read from the data pointer on, `buffer` the text
-- before its NUL.
pub record Dc : Type 0 where
  pub frame_data : Bytes
  pub data_len : ℕ
  pub data_off : ℕ
  pub buffer : Option Bytes
  pub buf_len : ℕ
  pub used : ℕ

-- A return of 0, a return of -1, a read past the data, and a lack of fuel.
pub data Answer : Type 0 where
  done failed : Dc → Answer
  fault stuck : Answer

abbrev pub Act : Type 0
Act = Dc → Answer

abbrev pub and_then : Answer → Act → Answer
and_then (done dc) b = b dc
and_then (failed dc) b = failed dc
and_then fault b = fault
and_then stuck b = stuck

infixr 10 ◌⨾◌
unfoldable pub ◌⨾◌ : Act → Act → Act
◌⨾◌ a b dc = and_then (a dc) b

abbrev pub max_fstr_len : ℕ
max_fstr_len = 4096

abbrev pub max_string_length : ℕ
max_string_length = 4096

abbrev pub extra_space : ℕ
extra_space = 64

-- `strlcat(dst, src, size)`, with its result.
abbrev pub strlcat : Bytes → Bytes → ℕ → Bytes × ℕ
strlcat dst src size = (
  dst ++ take (size - 1 - length dst) src,
  (if leb size (length dst) then size else length dst) + length src,
)

abbrev pub cat : Dc → Bytes → Bytes → Dc
cat dc old str =
    let (new, n) = strlcat old str dc.buf_len in record dc { buffer = some new; used = n }

-- The first call allocates the buffer.
abbrev pub opened : Bool → Dc → Option Bytes → Option (Bytes × Dc)
opened calloc_ok dc (some b) = some (b, dc)
opened calloc_ok dc none =
    if calloc_ok
    then some ([], record dc { buffer = some []; buf_len = 4 * extra_space; used = 0 })
    else none

-- The second half of `_append`, on the text that vsnprintf made of a text of ret bytes.
abbrev pub grow_and_cat : (ℕ → Bool) → ℕ → Bytes → Bytes → Dc → Bool × Dc
grow_and_cat room ret str old dc =
    let nbytes = ret + dc.used + extra_space in
    if leb dc.buf_len nbytes
    then if leb max_fstr_len nbytes
      then (false, dc)
      else if room nbytes
      then (true, cat (record dc { buf_len = nbytes }) old str)
      else (false, dc)
    else (true, cat dc old str)

abbrev pub append_opened : (ℕ → Bool) → Bytes → Dc → Option (Bytes × Dc) → Bool × Dc
append_opened room text dc none = (false, dc)
append_opened room text dc (some (old, dc')) =
    grow_and_cat room (length text) (take (max_string_length - 2) text) old dc'

-- `_append` of a formatted text: whether it returns 0, and the state. `room n` says whether the
-- heap gives a block of n bytes; the blocks of one decoding grow.
unfoldable pub append : (ℕ → Bool) → Bytes → Dc → Bool × Dc
append room text dc = append_opened room text dc (opened (room (4 * extra_space)) dc dc.buffer)

-- A call of `_append`, whose result is not looked at.
unfoldable pub say : (ℕ → Bool) → Bytes → Act
unfolding append
say room text dc = done (append room text dc).1

-- `decode_offset(dc) += n`.
unfoldable pub skip : ℕ → Act
skip n dc = done (record dc { data_off = u16 (dc.data_off + n) })

abbrev pub on_bytes : Dc → (Bytes → Act) → Option Bytes → Answer
on_bytes dc k none = fault
on_bytes dc k (some h) = k h dc

abbrev pub read_at : Bytes → ℕ → ℕ → Option Bytes
read_at mem off n = if leb (off + n) (length mem) then some (take n (drop off mem)) else none

-- n bytes at an offset of the data.
unfoldable pub with_bytes_at : ℕ → ℕ → (Bytes → Act) → Act
with_bytes_at off n k dc = on_bytes dc k (read_at dc.frame_data off n)

-- The header of n bytes at `decode_offset(dc)`.
unfoldable pub with_header : ℕ → (Bytes → Act) → Act
unfolding with_bytes_at
with_header n k dc = with_bytes_at dc.data_off n k dc

unfoldable pub return_error : Act
return_error dc = failed dc

unfoldable pub return_ok : Act
return_ok dc = done dc
