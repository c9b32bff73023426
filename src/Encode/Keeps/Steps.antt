-- ===== src/Encode/Keeps/Steps.antt =====
-- Each part of a layer keeps the invariant: the parameters, the headers, the checksums.
use fgen.Prelude.{ℕ, zero, suc, ◌+◌, Bool, true, false, Option, none, some, List, [], ◌∷◌}
use fgen.Prelude.Int.{ℤ, pos, negsuc}
use fgen.CString.{Bytes}
use fgen.CString.Number.{inet_pton}
use fgen.Strings.{strtrim, strtrimset}
use fgen.Frame.{OptType, dot1q, udp, tcp}
use fgen.Encode.Machine.{Ctx, M}
use fgen.Encode.Params.{
  text_or_crash, trim_parens, split_opts, tokens_or_fail, encode_opts, encode_vars, parser_kvp,
  handle_kvp, for_params, param_text,
}
use fgen.Encode.Layers.{unformat_at, ether_key, Tci, vlan_key, vlan_proto}
use fgen.Encode.Inet.{
  pton_at, poke_addr, ipv4_key, ipv4_proto, finish_ipv4, start_ipv4, Ports, port_key,
}
use fgen.Encode.Payload.{
  Sizing, add_int, payload_key, fill_between, fill_growth, fill_from, fill_tail,
}
use fgen.Encode.Keeps.Rules.{
  Leads, Keeps, Inv, Leads-bind, Keeps-pure, Leads-err_ret, Leads-crash, Keeps-gets,
  Keeps-of_option, Leads-if,
}
use fgen.Encode.Keeps.Actions.{
  Keeps-fbuf_data_len, Keeps-poke, Keeps-fill_at, Keeps-bytes_at, Keeps-lopt, Keeps-set_opt_length,
  Keeps-strtol_or_fail, Keeps-add_data_len, Keeps-set_data_len, Keeps-set_tsc_off,
}

pub ruleset action_rules = (
  Leads-bind, Keeps-pure, Leads-err_ret, Leads-crash, Keeps-of_option, Leads-if,
  Keeps-fbuf_data_len, Keeps-poke, Keeps-fill_at, Keeps-bytes_at, Keeps-lopt, Keeps-set_opt_length,
  Keeps-strtol_or_fail, Keeps-add_data_len, Keeps-set_data_len, Keeps-set_tsc_off,
)

module _ {P : Ctx → Type 0} where
  Keeps-text_or_crash : (o : Option Bytes) → Keeps P (text_or_crash o)
  Keeps-text_or_crash none = Leads-crash
  Keeps-text_or_crash (some s) = Keeps-pure s

  Keeps-trim_parens : (str : Bytes) → Keeps P (trim_parens str)
  unfolding trim_parens
  Keeps-trim_parens str = Keeps-text_or_crash (strtrimset (strtrim str) b'(' b')')

  Keeps-tokens_or_fail : (o : Option (List Bytes)) → Keeps P (tokens_or_fail o)
  Keeps-tokens_or_fail none = Leads-err_ret
  Keeps-tokens_or_fail (some toks) = Keeps-pure toks

  Keeps-split_opts : (s : Bytes) → Keeps P (split_opts s)
  Keeps-split_opts [] = Keeps-pure []
  Keeps-split_opts (c ∷ s) = Keeps-tokens_or_fail _

  pub Keeps-encode_opts : (str : Bytes) → Keeps P (encode_opts str)
  unfolding encode_opts
  Keeps-encode_opts str = Leads-bind _ _ (Keeps-trim_parens str) Keeps-split_opts

  Keeps-encode_vars : (str : Bytes) → Keeps P (encode_vars str)
  unfolding encode_vars
  Keeps-encode_vars str = Leads-bind _ _ (Keeps-trim_parens str) (λ s. Keeps-pure _)

  Keeps-parser_kvp : (param : Bytes) (kvps : List Bytes) → Keeps P (parser_kvp param kvps)
  unfolding parser_kvp
  Keeps-parser_kvp param kvps = Leads-bind _ _ (Keeps-encode_vars param) (λ kv. Keeps-pure _)

  pub Keeps-param_text : (o : Option Bytes) → Keeps P (param_text o)
  unfolding param_text
  Keeps-param_text none = Leads-crash
  Keeps-param_text (some s) = Keeps-pure s

module _ {P : Ctx → Type 0} {S : Type 0} (kvps : List Bytes) (handle : ℕ → Bytes → S → M S)
    (kept : (i : ℕ) (val : Bytes) (acc : S) → Keeps P (handle i val acc)) where
  Keeps-handle_kvp : (kv : Option (ℕ × Bytes)) (acc : S) → Keeps P (handle_kvp kvps handle kv acc)
  Keeps-handle_kvp none acc = Leads-err_ret
  Keeps-handle_kvp (some (i, val)) acc = kept i val acc

  -- A loop over parameters keeps what each key's action keeps.
  pub Keeps-for_params : (toks : List Bytes) (acc : S) → Keeps P (for_params kvps handle toks acc)
  unfolding for_params
  Keeps-for_params [] acc = Keeps-pure acc
  Keeps-for_params (p ∷ ps) acc =
      Leads-bind _ _ (Keeps-parser_kvp p kvps)
        (λ kv. Leads-bind _ _ (Keeps-handle_kvp kv acc) (λ acc'. Keeps-for_params ps acc'))

module _ {sized : Bool} {s₀ : Ctx} where
  pub Keeps-unformat_at : (off : ℕ) (s : Bytes) → Keeps (Inv sized s₀) (unformat_at off s)
  unfolding unformat_at
  Keeps-unformat_at off s = search action_rules

  pub Keeps-ether_key :
      (i : ℕ) (val : Bytes) (acc : Unit {0}) → Keeps (Inv sized s₀) (ether_key i val acc)
  unfolding ether_key
  Keeps-ether_key zero val acc = Keeps-unformat_at 0 val
  Keeps-ether_key (suc zero) val acc = Keeps-unformat_at 6 val
  Keeps-ether_key (suc (suc i)) val acc = Leads-err_ret

  pub Keeps-vlan_key : (i : ℕ) (val : Bytes) (t : Tci) → Keeps (Inv sized s₀) (vlan_key i val t)
  unfolding vlan_key
  Keeps-vlan_key zero val t = search action_rules
  Keeps-vlan_key (suc zero) val t = search action_rules
  Keeps-vlan_key (suc (suc zero)) val t = search action_rules
  Keeps-vlan_key (suc (suc (suc i))) val t = Leads-err_ret

  pub Keeps-vlan_proto :
      (ad : Bool) (off : ℕ) (nxt : OptType) → Keeps (Inv sized s₀) (vlan_proto ad off nxt)
  unfolding vlan_proto
  Keeps-vlan_proto true off dot1q = search action_rules
  Keeps-vlan_proto false off dot1q = search action_rules
  Keeps-vlan_proto true off _ = search action_rules
  Keeps-vlan_proto false off _ = search action_rules

  Keeps-poke_addr : (off : ℕ) (o : Option (List ℕ)) → Keeps (Inv sized s₀) (poke_addr off o)
  Keeps-poke_addr off none = Keeps-pure tt
  Keeps-poke_addr off (some a) = Keeps-poke off a

  pub Keeps-pton_at : (off : ℕ) (s : Bytes) → Keeps (Inv sized s₀) (pton_at off s)
  unfolding pton_at
  Keeps-pton_at off s = Keeps-poke_addr off (inet_pton s)

  pub Keeps-ipv4_key :
      (off i : ℕ) (val : Bytes) (acc : Unit {0}) → Keeps (Inv sized s₀) (ipv4_key off i val acc)
  unfolding ipv4_key
  Keeps-ipv4_key off zero val acc = Keeps-pton_at (off + 16) val
  Keeps-ipv4_key off (suc zero) val acc = Keeps-pton_at (off + 12) val
  Keeps-ipv4_key off (suc (suc i)) val acc = Leads-err_ret

  Keeps-ipv4_proto : (off : ℕ) (nxt : OptType) → Keeps (Inv sized s₀) (ipv4_proto off nxt)
  unfolding ipv4_proto
  Keeps-ipv4_proto off udp = search action_rules depth 20
  Keeps-ipv4_proto off tcp = search action_rules depth 20
  Keeps-ipv4_proto off _ = Keeps-pure tt

  pub Keeps-finish_ipv4 :
      (lidx off : ℕ) (nxt : OptType) → Keeps (Inv sized s₀) (finish_ipv4 lidx off nxt)
  unfolding finish_ipv4
  Keeps-finish_ipv4 lidx off nxt = search (action_rules, Keeps-ipv4_proto) depth 20

  pub Keeps-start_ipv4 : (off : ℕ) → Keeps (Inv sized s₀) (start_ipv4 off)
  unfolding start_ipv4
  Keeps-start_ipv4 off = search (action_rules, Keeps-pton_at) depth 20

  pub Keeps-port_key : (i : ℕ) (val : Bytes) (p : Ports) → Keeps (Inv sized s₀) (port_key i val p)
  unfolding port_key
  Keeps-port_key zero val p = search action_rules
  Keeps-port_key (suc zero) val p = search action_rules
  Keeps-port_key (suc (suc i)) val p = Leads-err_ret

  Keeps-add_int : (a b : ℤ) → Keeps (Inv sized s₀) (add_int a b)
  unfolding add_int
  Keeps-add_int a b = search action_rules

  pub Keeps-payload_key :
      (i : ℕ) (val : Bytes) (z : Sizing) → Keeps (Inv sized s₀) (payload_key i val z)
  unfolding payload_key
  Keeps-payload_key zero val z = search action_rules
  Keeps-payload_key (suc zero) val z = search (action_rules, Keeps-add_int)
  Keeps-payload_key (suc (suc zero)) val z = search action_rules
  Keeps-payload_key (suc (suc (suc i))) val z = Leads-err_ret

  Keeps-fill_between : (plen : ℕ) (fill len : ℤ) → Keeps (Inv sized s₀) (fill_between plen fill len)
  Keeps-fill_between plen fill (pos n) = search action_rules
  Keeps-fill_between plen fill (negsuc n) = Keeps-pure tt

  pub Keeps-fill_growth : (plen : ℕ) (z : Sizing) → Keeps (Inv sized s₀) (fill_growth plen z)
  unfolding fill_growth
  Keeps-fill_growth plen z = Keeps-fill_between plen z.fill z.pktlen

  Keeps-fill_from : (a b : ℤ) (len : ℕ) → Keeps (Inv sized s₀) (fill_from a b len)
  unfolding fill_from
  Keeps-fill_from (pos n) b len = search action_rules
  Keeps-fill_from (negsuc n) b len = Leads-crash

  pub Keeps-fill_tail : (z : Sizing) (len : ℕ) → Keeps (Inv sized s₀) (fill_tail z len)
  unfolding fill_tail
  Keeps-fill_tail z len = search (action_rules, Keeps-fill_from)
