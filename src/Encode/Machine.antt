-- ===== src/Encode/Machine.antt =====
-- The state of encode.c and its primitive actions. What the log prints is left out.
use fgen.Prelude.{
  ℕ, ◌+◌, ◌/◌, ◌%◌, Option, none, some, List, [], ◌∷◌, ◌++◌, leb, if◌then◌else◌, length, take, drop,
  get_elem?, set, replicate, u16,
}
use fgen.Prelude.Int.{ℤ}
use fgen.CString.{Bytes}
use fgen.CString.Number.{strtol}
use fgen.Frame.{Fopt, Frame, Fgen, max_layers}

-- The frame being encoded and the fgen_t that it points to.
pub record Ctx : Type 0 where
  pub frame : Frame
  pub fg : Fgen

-- `failed` is a return of -1, `fault` an access that C leaves undefined, and `stuck` means that
-- the fuel of `next_layer` ran out.
pub data Outcome {ℓ} (A : Type ℓ) : Type ℓ where
  ok : A → Ctx → Outcome A
  failed : Ctx → Outcome A
  fault stuck : Outcome A

abbrev pub M {ℓ} : Type ℓ → Type ℓ
M A = Ctx → Outcome A

module _ {ℓ κ} {A : Type ℓ} {B : Type κ} where
  abbrev pub and_then : Outcome A → (A → M B) → Outcome B
  and_then (ok a s) f = f a s
  and_then (failed s) f = failed s
  and_then fault f = fault
  and_then stuck f = stuck

  infixl 10 ◌>>=◌ ◌>>◌
  unfoldable pub ◌>>=◌ : M A → (A → M B) → M B
  ◌>>=◌ m f s = and_then (m s) f

  abbrev pub ◌>>◌ : M A → M B → M B
  m >> n = m >>= λ _. n

module _ {ℓ} {A : Type ℓ} where
  unfoldable pub pure : A → M A
  pure a s = ok a s

  -- FGEN_ERR_RET: the log line, and -1.
  unfoldable pub err_ret : M A
  err_ret s = failed s

  unfoldable pub crash : M A
  crash s = fault

  unfoldable pub out_of_fuel : M A
  out_of_fuel s = stuck

  unfoldable pub of_option : Option A → M A
  of_option none s = fault
  of_option (some a) s = ok a s

unfoldable pub gets {ℓ} : {A : Type ℓ} → (Ctx → A) → M A
gets f s = ok (f s) s

-- Writes to the fields of the frame and of its fgen_t.
unfoldable pub modify_frame : (Frame → Frame) → M (Unit {0})
modify_frame f s = ok tt (record s { frame = f s.frame })

unfoldable pub modify_opts : (List Fopt → List Fopt) → M (Unit {0})
modify_opts f s = ok tt (record s { fg = record (s.fg) { opts = f s.fg.opts } })

-- `fbuf_data_len(f)`, and an assignment to that uint16_t.
unfoldable pub fbuf_data_len : M ℕ
unfolding gets
fbuf_data_len = gets (λ s. s.frame.data_len)

unfoldable pub set_data_len : ℕ → M (Unit {0})
unfolding modify_frame
set_data_len n = modify_frame (λ f. record f { data_len = u16 n })

-- `fbuf_data_len(f) += n`.
unfoldable pub add_data_len : ℕ → M (Unit {0})
unfolding modify_frame
add_data_len n = modify_frame (λ f. record f { data_len = u16 (f.data_len + n) })

-- Bytes written at an address of a block.
unfoldable pub write_at : Bytes → ℕ → Bytes → Option Bytes
write_at mem at bs =
    if leb (at + length bs) (length mem)
    then some (take at mem ++ (bs ++ drop (at + length bs) mem))
    else none

abbrev pub block_write : Option Bytes → ℕ → Bytes → Option Bytes
block_write none at bs = none
block_write (some mem) at bs = write_at mem at bs

abbrev pub put_block : Ctx → Option Bytes → Outcome (Unit {0})
put_block s none = fault
put_block s (some mem) =
    ok tt (record s { fg = record (s.fg) { salloc = record (s.fg.salloc) { ptr = some mem } } })

-- Writing the bytes at `fbuf_mtod_offset(f, …, off)`.
unfoldable pub poke : ℕ → Bytes → M (Unit {0})
unfolding write_at
poke off bs s = put_block s (block_write s.fg.salloc.ptr (s.frame.data_off + off) bs)

abbrev pub block_from : Option Bytes → ℕ → Bytes
block_from none at = []
block_from (some mem) at = drop at mem

-- The bytes that can be read from `fbuf_mtod_offset(f, …, off)` on.
unfoldable pub bytes_at : ℕ → M Bytes
unfolding gets
bytes_at off = gets (λ s. block_from s.fg.salloc.ptr (s.frame.data_off + off))

-- `memset(fbuf_mtod_offset(f, …, off), c, n)`.
unfoldable pub fill_at : ℕ → ℕ → ℕ → M (Unit {0})
unfolding poke
fill_at off c n = poke off (replicate n c)

-- `p[off] = htons(v)` for a uint16_t v.
abbrev pub poke_be16 : ℕ → ℕ → M (Unit {0})
poke_be16 off v = poke off (u16 v / 256 ∷ u16 v % 256 ∷ [])

abbrev pub poke_8 : ℕ → ℕ → M (Unit {0})
poke_8 off v = poke off (v % 256 ∷ [])

abbrev pub opt_or_fail : Ctx → Option Fopt → Outcome Fopt
opt_or_fail s none = fault
opt_or_fail s (some o) = ok o s

-- FGEN_LOPT(fg, lidx): the option of a layer, with -1 past the array.
unfoldable pub lopt : ℕ → M Fopt
lopt lidx s = if leb max_layers lidx then failed s else opt_or_fail s (get_elem? s.fg.opts lidx)

abbrev pub with_length : List Fopt → ℕ → ℕ → Option Fopt → List Fopt
with_length opts lidx n none = opts
with_length opts lidx n (some o) = set opts lidx (record o { length = u16 n })

-- `opt->length = n`.
unfoldable pub set_opt_length : ℕ → ℕ → M (Unit {0})
unfolding modify_opts
set_opt_length lidx n = modify_opts (λ os. with_length os lidx n (get_elem? os lidx))

-- STRTOL(v): -1 when errno was set.
abbrev pub number_or_fail : Option ℤ → M ℤ
number_or_fail none = err_ret
number_or_fail (some z) = pure z

unfoldable pub strtol_or_fail : Bytes → M ℤ
unfolding err_ret pure
strtol_or_fail v = number_or_fail (strtol v)
