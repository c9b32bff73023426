-- ===== src/Salloc.antt =====
-- lib/utils/salloc.c and salloc.h: the block allocator behind the frames.
pub mod Regions
use fgen.Prelude.{
  ℕ, ◌+◌, ◌-◌, ◌%◌, ◌^◌, Bool, true, false, ◌||◌, Option, none, some, [], ◌++◌, ltb, ◌==◌,
  if◌then◌else◌, length, take, replicate, u64,
}
use fgen.CString.{Bytes}

-- salloc_t: `ptr` is the block's bytes, or NULL.
pub record Salloc : Type 0 where
  pub ptr : Option Bytes
  pub size : ℕ
  pub used : ℕ

-- The answers of the C library's heap to one call: whether calloc and realloc find room, and a
-- byte that stands for the content of memory that realloc has added.
pub record HeapAnswer : Type 0 where
  pub calloc_ok : Bool
  pub realloc_ok : Bool
  pub junk : ℕ

abbrev pub old_bytes : Option Bytes → Bytes
old_bytes none = []
old_bytes (some b) = b

-- `realloc(ptr, size)` keeps what fits of the old content.
unfoldable pub realloc : HeapAnswer → Option Bytes → ℕ → Option Bytes
realloc h ptr size =
    if h.realloc_ok
    then some (take size (old_bytes ptr) ++ replicate (size - length (old_bytes ptr)) h.junk)
    else none

abbrev pub default_block_size : ℕ
default_block_size = 1024

abbrev zeroed : ℕ → Option Bytes → Option Salloc
zeroed size none = none
zeroed size (some b) = some (record { ptr = some (replicate size 0); size = size; used = 0 })

-- `salloc_create`.
unfoldable pub salloc_create : HeapAnswer → ℕ → Option Salloc
unfolding realloc
salloc_create h size =
    let size' = if size == 0 then default_block_size else size in
    if h.calloc_ok then zeroed size' (realloc h none size') else none

-- `salloc_unused`, in uint64_t.
abbrev pub salloc_unused : Salloc → ℕ
salloc_unused s = u64 (s.size + 2 ^ 64 - s.used)

abbrev pub is_null : Option Bytes → Bool
is_null none = true
is_null (some b) = false

abbrev pub claim : Salloc → ℕ → Salloc × Option ℕ
claim s size = (record s { used = u64 (s.used + size) }, some s.used)

abbrev pub after_realloc : Salloc → ℕ → Option Bytes → Salloc × Option ℕ
after_realloc s size none = (record s { ptr = none }, none)
after_realloc s size (some b) =
    claim (record { ptr = some b; size = u64 (s.size + size); used = s.used }) size

-- `salloc` of arguments that are not NULL: the new state, and the offset, or none for -1.
unfoldable pub salloc : HeapAnswer → Salloc → ℕ → Salloc × Option ℕ
unfolding realloc
salloc h s size =
    if size == 0
    then (s, none)
    else if is_null s.ptr || ltb (salloc_unused s) size
    then after_realloc s size (realloc h s.ptr size)
    else claim s size

-- `salloc_destroy`: nothing is left of the allocator.
unfoldable pub salloc_destroy : Option Salloc → Option Salloc
salloc_destroy s = none

-- `salloc_ptr` for the address of the block.
unfoldable pub salloc_ptr : ℕ → ℕ → ℕ
salloc_ptr ptr offset = u64 (ptr + offset)
