-- ===== src/Encode/Table.antt =====
-- `fgen_tbl`, `next_layer` and `_encode_frame` of encode.c.
use fgen.Prelude.{
  ℕ, zero, suc, ◌+◌, ◌-◌, Bool, true, false, Option, none, some, List, [], ◌∷◌, ◌++◌, leb,
  if◌then◌else◌, length, drop, get_elem?, replicate,
}
use fgen.CString.{Bytes, codes, strncasecmp_eq}
use fgen.Strings.{fgen_strtok}
use fgen.Frame.{
  OptType, ether, dot1q, dot1ad, ipv4, ipv6, udp, tcp, vxlan, echo, tsc, raw, payload, done, Ftable,
  Fopt, no_fopt, no_proto, max_layers,
}
use fgen.Encode.Machine.{
  Outcome, ok, failed, fault, stuck, M, ◌>>=◌, ◌>>◌, pure, err_ret, crash, out_of_fuel, gets,
  modify_frame, modify_opts,
}
use fgen.Encode.Layers.{
  encode_ether, encode_vlan, encode_ipv6, encode_echo, encode_raw, encode_tsc, encode_vxlan,
  encode_done,
}
use fgen.Encode.Inet.{encode_ipv4, encode_udp, encode_tcp}
use fgen.Encode.Payload.{encode_payload}

abbrev entry : OptType → Bytes → Ftable
entry t s = record { typ = t; str = s }

-- The rows of `fgen_tbl` from its index 1 on; row 0 is `done_entry`.
abbrev pub fgen_tbl : List Ftable
fgen_tbl =
    entry ether (codes "Ether(")
    ∷ entry dot1q (codes "Dot1q(")
    ∷ entry dot1ad (codes "Dot1ad(")
    ∷ entry ipv4 (codes "IPv4(")
    ∷ entry ipv6 (codes "IPv6(")
    ∷ entry udp (codes "UDP(")
    ∷ entry tcp (codes "TCP(")
    ∷ entry vxlan (codes "Vxlan(")
    ∷ entry echo (codes "Echo(")
    ∷ entry tsc (codes "TSC(")
    ∷ entry raw (codes "Raw(")
    ∷ entry payload (codes "Payload(")
    ∷ []

abbrev pub done_entry : Ftable
done_entry = entry done []

-- The function pointer of a row.
unfoldable pub layer_fn : OptType → (ℕ → M OptType) → ℕ → M OptType
layer_fn ether next = encode_ether next
layer_fn dot1q next = encode_vlan next false
layer_fn dot1ad next = encode_vlan next true
layer_fn ipv4 next = encode_ipv4 next
layer_fn ipv6 next = encode_ipv6 next
layer_fn udp next = encode_udp next
layer_fn tcp next = encode_tcp next
layer_fn vxlan next = encode_vxlan next
layer_fn echo next = encode_echo next
layer_fn tsc next = encode_tsc next
layer_fn raw next = encode_raw next
layer_fn payload next = encode_payload next
layer_fn done next = encode_done

abbrev pub table_or_fail : Option Ftable → M Ftable
table_or_fail none = err_ret
table_or_fail (some t) = pure t

-- What `next_layer` finds at index idx: -1 at the end of the layers or for a layer with no row.
abbrev pub opt_tbl : Option Fopt → M Ftable
opt_tbl none = crash
opt_tbl (some o) = table_or_fail o.tbl

unfoldable pub layer_at : ℕ → M Ftable
unfolding gets crash err_ret pure
layer_at idx = do
  n ← gets (λ s. s.fg.nb_layers)
  opts ← gets (λ s. s.fg.opts)
  if leb n idx then err_ret else opt_tbl (get_elem? opts idx)

-- `next_layer`, with fuel for the layers that are left.
unfoldable pub next_layer : ℕ → ℕ → M OptType
next_layer zero idx = out_of_fuel
next_layer (suc fuel) idx = do t ← layer_at idx; layer_fn t.typ (next_layer fuel) idx

-- The row whose name the layer begins with, whatever its case.
unfoldable pub find_entry : List Ftable → Bytes → Option Ftable
unfolding strncasecmp_eq
find_entry [] layer = none
find_entry (t ∷ ts) layer =
    let r = find_entry ts layer in if strncasecmp_eq layer t.str (length t.str) then some t else r

abbrev fopt_of : Bytes → Option Ftable → Fopt
fopt_of layer none = no_fopt
fopt_of layer (some t) = record no_fopt {
  typ = t.typ;
  tbl = some t;
  param_str = some (drop (length t.str - 1) layer);
}

unfoldable pub layer_opts : List Bytes → List Fopt
unfolding find_entry
layer_opts [] = []
layer_opts (l ∷ ls) = fopt_of l (find_entry fgen_tbl l) ∷ layer_opts ls

abbrev pub done_opt : Fopt
done_opt = record no_fopt { typ = done; tbl = some done_entry }

-- `fg->opts` once every layer is identified and the done layer stands behind them.
unfoldable pub all_opts : List Bytes → List Fopt
unfolding layer_opts
all_opts layers =
    layer_opts layers ++ (done_opt ∷ replicate (max_layers - 1 - length layers) no_fopt)

-- A failed `next_layer` leaves by the same `return 0`.
abbrev pub swallow {ℓ} : {A : Type ℓ} → Outcome A → Outcome (Unit {0})
swallow (ok a s) = ok tt s
swallow (failed s) = ok tt s
swallow fault = fault
swallow stuck = stuck

unfoldable pub ignore_failure {ℓ} : {A : Type ℓ} → M A → M (Unit {0})
ignore_failure m s = swallow (m s)

unfoldable pub set_nb_layers : ℕ → M (Unit {0})
set_nb_layers n s = ok tt (record s { fg = record (s.fg) { nb_layers = n } })

-- The layers' functions, from layer 0 on.
unfoldable pub run_layers : List Bytes → M (Unit {0})
unfolding modify_opts set_nb_layers ignore_failure all_opts
run_layers layers = do
  modify_opts (λ _. all_opts layers)
  set_nb_layers (length layers + 1)
  ignore_failure (next_layer (suc (length layers + 1)) 0)

abbrev pub layers_or_fail : Option (List Bytes) → M (Unit {0})
layers_or_fail none = set_nb_layers 0xffff >> crash
layers_or_fail (some []) = set_nb_layers 0 >> err_ret
layers_or_fail (some (l ∷ ls)) = run_layers (l ∷ ls)

-- `_encode_frame`; the argument says whether `strdup` finds room.
unfoldable pub encode_frame : Bool → M (Unit {0})
unfolding run_layers modify_frame modify_opts set_nb_layers gets err_ret
encode_frame strdup_ok = do
  modify_opts (λ _. replicate max_layers no_fopt)
  modify_frame (λ f. record f { l2 = no_proto; l3 = no_proto; l4 = no_proto })
  fstr ← gets (λ s. s.frame.fstr)
  if strdup_ok then layers_or_fail (fgen_strtok fstr (codes "/") (max_layers - 1)) else err_ret
