-- ===== src/Frame.antt =====
-- lib/core/fgen.h: the types of the frame generator. The arrays `layers` and `params` of fgen_t
-- hold pointers into the text while it is cut up; they are passed as values. The list links and
-- the back pointer of a frame are the list `head`.
use fgen.Prelude.{ℕ, Option, none, List}
use fgen.CString.{Bytes}
use fgen.Salloc.{Salloc}

-- opt_type_t without FGEN_ERROR_TYPE, which is a failed outcome; `done` is FGEN_TYPE_COUNT.
pub data OptType : Type 0 where
  ether dot1q dot1ad ipv4 ipv6 udp tcp vxlan echo tsc raw payload done : OptType

-- ftable_t: the function is the one of the type.
pub record Ftable : Type 0 where
  pub typ : OptType
  pub str : Bytes

-- fopt_t.
pub record Fopt : Type 0 where
  pub typ : OptType
  pub offset : ℕ
  pub length : ℕ
  pub param_str : Option Bytes
  pub tbl : Option Ftable

-- A fopt_t that memset cleared.
abbrev pub no_fopt : Fopt
no_fopt = record { typ = OptType.ether; offset = 0; length = 0; param_str = none; tbl = none }

-- proto_t.
pub record Proto : Type 0 where
  pub offset : ℕ
  pub length : ℕ

abbrev pub no_proto : Proto
no_proto = record { offset = 0; length = 0 }

-- frame_t.
pub record Frame : Type 0 where
  pub name : Bytes
  pub fstr : Bytes
  pub data_off : ℕ
  pub data_len : ℕ
  pub tsc_off : ℕ
  pub port : ℕ
  pub l2 : Proto
  pub l3 : Proto
  pub l4 : Proto

-- fgen_t.
pub record Fgen : Type 0 where
  pub head : List Frame
  pub flags : ℕ
  pub nb_frames : ℕ
  pub salloc : Salloc
  pub nb_layers : ℕ
  pub opts : List Fopt

abbrev pub max_layers : ℕ
max_layers = 32

abbrev pub max_params : ℕ
max_params = 16

abbrev pub max_kvp_tokens : ℕ
max_kvp_tokens = 4
