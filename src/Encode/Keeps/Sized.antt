-- ===== src/Encode/Keeps/Sized.antt =====
-- Each layer, from any length on, leaves a sized frame when the call of the next layer does.
use fgen.Prelude.{ℕ, ◌+◌, Bool, true, false, arith}
use fgen.Frame.{OptType}
use fgen.Encode.Machine.{Ctx, M, ◌>>=◌, pure, fbuf_data_len, set_data_len, modify_frame, gets}
use fgen.Encode.Layers.{
  encode_ether, encode_vlan, encode_ipv6, encode_echo, encode_raw, encode_tsc, encode_vxlan,
  encode_done,
}
use fgen.Encode.Inet.{encode_ipv4, encode_udp, encode_tcp}
use fgen.Encode.Payload.{encode_payload}
use fgen.Encode.Keeps.Rules.{Leads, Keeps, Inv, Leads-bind, Leads-bind_then}
use fgen.Encode.Keeps.Actions.{Inv-unsized, Keeps-lopt}
use fgen.Encode.Keeps.Steps.{
  action_rules, Keeps-encode_opts, Keeps-param_text, Keeps-for_params, Keeps-unformat_at,
  Keeps-ether_key, Keeps-vlan_key, Keeps-vlan_proto, Keeps-ipv4_key, Keeps-finish_ipv4,
  Keeps-start_ipv4, Keeps-port_key, Keeps-payload_key, Keeps-fill_growth, Keeps-fill_tail,
}

-- The call of the next layer sizes the frame.
abbrev pub Sizes : {A : Type 0} → Ctx → M A → Type 0
Sizes s₀ m = Leads (Inv false s₀) (Inv true s₀) m

Sizes-bind :
    {A B : Type 0} {s₀ : Ctx} (m : M A) (f : A → M B)
    → Sizes s₀ m
    → ((a : A) → Keeps (Inv true s₀) (f a))
    → Sizes s₀ (m >>= f)
Sizes-bind m f h k = Leads-bind_then m f Inv-unsized h k

-- `_encode_done` brings the length into range, whatever it is.
pub encode_done-Sizes : {s₀ : Ctx} (lidx : ℕ) → Sizes s₀ (encode_done lidx)
unfolding encode_done
encode_done-Sizes lidx = Leads-bind _ _ (Keeps-lopt lidx) (λ opt. record {
  at = λ s h. unfold ◌>>=◌ fbuf_data_len gets set_data_len modify_frame pure in ground arith;
})

ruleset layer_rules = (
  action_rules, Sizes-bind, Keeps-encode_opts, Keeps-param_text, Keeps-for_params,
  Keeps-unformat_at, Keeps-ether_key, Keeps-vlan_key, Keeps-vlan_proto, Keeps-ipv4_key,
  Keeps-finish_ipv4, Keeps-start_ipv4, Keeps-port_key, Keeps-payload_key, Keeps-fill_growth,
  Keeps-fill_tail,
)

module _ {s₀ : Ctx} (next : ℕ → M OptType) (lidx : ℕ) (h : Sizes s₀ (next (lidx + 1))) where
  pub encode_ether-Sizes : Sizes s₀ (encode_ether next lidx)
  unfolding encode_ether
  encode_ether-Sizes = search layer_rules depth 30

  pub encode_vlan-Sizes : (ad : Bool) → Sizes s₀ (encode_vlan next ad lidx)
  unfolding encode_vlan
  encode_vlan-Sizes ad = search layer_rules depth 30

  pub encode_ipv6-Sizes : Sizes s₀ (encode_ipv6 next lidx)
  unfolding encode_ipv6
  encode_ipv6-Sizes = search layer_rules depth 30

  pub encode_echo-Sizes : Sizes s₀ (encode_echo next lidx)
  unfolding encode_echo
  encode_echo-Sizes = search layer_rules depth 30

  pub encode_raw-Sizes : Sizes s₀ (encode_raw next lidx)
  unfolding encode_raw
  encode_raw-Sizes = search layer_rules depth 30

  pub encode_tsc-Sizes : Sizes s₀ (encode_tsc next lidx)
  unfolding encode_tsc
  encode_tsc-Sizes = search layer_rules depth 30

  pub encode_vxlan-Sizes : Sizes s₀ (encode_vxlan next lidx)
  unfolding encode_vxlan
  encode_vxlan-Sizes = search layer_rules depth 30

  pub encode_ipv4-Sizes : Sizes s₀ (encode_ipv4 next lidx)
  unfolding encode_ipv4
  encode_ipv4-Sizes = search layer_rules depth 30

  pub encode_udp-Sizes : Sizes s₀ (encode_udp next lidx)
  unfolding encode_udp
  encode_udp-Sizes = search layer_rules depth 30

  pub encode_tcp-Sizes : Sizes s₀ (encode_tcp next lidx)
  unfolding encode_tcp
  encode_tcp-Sizes = search layer_rules depth 30

  pub encode_payload-Sizes : Sizes s₀ (encode_payload next lidx)
  unfolding encode_payload
  encode_payload-Sizes = search layer_rules depth 30
