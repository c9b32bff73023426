-- ===== src/System.antt =====
-- lib/osal/fgen_system.c: what the system says of its processors. The files are given: `none` is
-- one that cannot be opened or is empty, `some` the string of its first line.
pub mod Sockets
pub mod Places
use fgen.Prelude.{
  ℕ, zero, suc, ◌+◌, ◌-◌, ◌%◌, ◌^◌, Bool, true, false, ◌||◌, Option, none, some, List, [], ◌∷◌, leb,
  ltb, ◌==◌, if◌then◌else◌, length, get_elem?, drop,
}
use fgen.Prelude.Int.{ℤ}
use fgen.CString.{Bytes, codes, strncasecmp_eq}
use fgen.CString.Unsigned.{strtoul}
use fgen.Strings.{fgen_strtok}

-- The loop of `fgen_max_numa_nodes` over what `fgets` reads from lscpu; `atoi` is the C library's.
module _ (atoi : Bytes → ℕ) where
  unfoldable pub numa_lines : List Bytes → ℕ
  unfolding strncasecmp_eq
  numa_lines [] = 1
  numa_lines (l ∷ ls) =
      let rest = numa_lines ls in
      if strncasecmp_eq (codes "NUMA node(s):") l 13 then atoi (drop 13 l) else rest

  abbrev lscpu_nodes : Option (List Bytes) → ℕ
  lscpu_nodes none = 1
  lscpu_nodes (some ls) = numa_lines ls

  -- `fgen_max_numa_nodes`, with `nb_numa_nodes` before: what it returns, which is also its value
  -- then. `none` says that `popen` fails.
  unfoldable pub fgen_max_numa_nodes : Option (List Bytes) → ℕ → ℕ
  unfolding numa_lines
  fgen_max_numa_nodes lscpu nodes = if nodes == 0 then lscpu_nodes lscpu else nodes

-- The loop of `fgen_socket_id` with the sockets that are left: the first whose directory has the
-- logical core.
unfoldable pub socket_loop : ℕ → ℕ → (ℕ → Bool) → ℕ
socket_loop zero socket has_cpu = 0
socket_loop (suc left) socket has_cpu =
    let rest = socket_loop left (suc socket) has_cpu in if has_cpu socket then socket else rest

-- `fgen_socket_id`, with the number of nodes and which of them have the core.
unfoldable pub fgen_socket_id : ℕ → (ℕ → Bool) → ℕ
unfolding socket_loop
fgen_socket_id nodes has_cpu = socket_loop nodes 0 has_cpu

-- The number, or -1, or a call of `strtoul` on NULL or on what lies behind the array.
pub data Stat : Type 0 where
  value : ℕ → Stat
  failed : Stat
  bad_pointer : Stat

abbrev number_at : Option Bytes → Stat
number_at none = bad_pointer
number_at (some tok) = value ((strtoul 0 tok).0 % 2 ^ 32)

abbrev stat_of : Option (List Bytes) → ℕ → Stat
stat_of none idx = failed
stat_of (some toks) idx =
    if ltb (length toks) idx
    then failed
    else if idx == 1 || idx == 2
    then failed
    else number_at (get_elem? toks idx)

-- `parse_procfs_stat_value` for a place in the line of /proc/…/stat; the number is that of an int,
-- as its pattern of 32 bits.
unfoldable pub stat_value : Option Bytes → ℕ → Stat
unfolding fgen_strtok strtoul
stat_value none idx = failed
stat_value (some buf) idx = stat_of (fgen_strtok buf (codes " ") 64) idx

-- `fgen_lcore_id` and `fgen_lcore_id_by_thread`.
unfoldable pub fgen_lcore_id : Option Bytes → Stat
unfolding stat_value
fgen_lcore_id stat = stat_value stat 38

-- The value, if a newline follows it.
abbrev ends_line : ℕ × Bytes → Option ℕ
ends_line (v, []) = none
ends_line (v, c ∷ rest) = if c == 10 then some v else none

-- `parse_sysfs_value`.
unfoldable pub sysfs_value : Option Bytes → Option ℕ
unfolding strtoul
sysfs_value none = none
sysfs_value (some buf) = ends_line (strtoul 0 buf)

abbrev value_or_0 : ℕ → Option ℕ → ℕ
value_or_0 modulus none = 0
value_or_0 modulus (some v) = v % modulus

-- `fgen_core_id`; its path always fits.
unfoldable pub fgen_core_id : Option Bytes → ℕ
unfolding sysfs_value
fgen_core_id file = value_or_0 (2 ^ 32) (sysfs_value file)

-- `fgen_device_socket_id` of a network device; its path has 32 bytes more than the name.
unfoldable pub fgen_device_socket_id : Bytes → Option Bytes → ℕ
unfolding sysfs_value
fgen_device_socket_id netdev file =
    if leb 4096 (length netdev + 32) then 0 else value_or_0 (2 ^ 16) (sysfs_value file)

-- `fgen_max_lcores` with what `sysconf` says, and with `nb_lcores` before.
unfoldable pub fgen_max_lcores : Option ℕ → ℕ → ℕ
fgen_max_lcores online zero = elim online [ none ↦ 0 | some n ↦ n ]
fgen_max_lcores online (suc n) = suc n
