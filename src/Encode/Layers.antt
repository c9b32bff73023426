-- ===== src/Encode/Layers.antt =====
-- The layers of encode.c that write plain headers: Ether, Dot1q and Dot1ad, VxLan, Echo, TSC, Raw,
-- IPv6 and the closing `_encode_done`. Each takes the call of `next_layer` as an argument.
pub mod Tag
use fgen.Prelude.{
  ℕ, zero, suc, ◌+◌, ◌*◌, ◌/◌, ◌%◌, ◌^◌, Bool, true, false, Option, none, some, List, [], ◌∷◌,
  bit_or, ltb, if◌then◌else◌,
}
use fgen.Prelude.Int.{to_word}
use fgen.CString.{Bytes, codes}
use fgen.Cksum.{read}
use fgen.Ether.{ether_unformat_addr}
use fgen.Frame.{
  OptType, ether, dot1q, dot1ad, ipv4, ipv6, udp, tcp, vxlan, echo, tsc, raw, payload, done, Fopt,
}
use fgen.Encode.Machine.{
  M, ◌>>=◌, ◌>>◌, pure, err_ret, of_option, modify_frame, fbuf_data_len, set_data_len, add_data_len,
  poke, poke_8, poke_be16, bytes_at, fill_at, lopt, set_opt_length, strtol_or_fail,
}
use fgen.Encode.Params.{encode_opts, for_params, param_text}

-- `ether_unformat_addr(s, …)` on six bytes of the frame; its result is not looked at.
unfoldable pub unformat_at : ℕ → Bytes → M (Unit {0})
unfolding bytes_at of_option poke read
unformat_at off s = do
  mem ← bytes_at off
  old ← of_option (read mem 6)
  poke off (ether_unformat_addr s old).1

abbrev pub ether_kvps : List Bytes
ether_kvps = codes "dst" ∷ codes "src" ∷ []

unfoldable pub ether_key : ℕ → Bytes → Unit {0} → M (Unit {0})
unfolding unformat_at err_ret
ether_key zero val acc = unformat_at 0 val
ether_key (suc zero) val acc = unformat_at 6 val
ether_key (suc (suc i)) val acc = err_ret

abbrev pub ether_type_ipv4 : ℕ
ether_type_ipv4 = 0x0800

abbrev pub ether_type_vlan : ℕ
ether_type_vlan = 0x8100

abbrev pub ether_type_qinq : ℕ
ether_type_qinq = 0x88a8

unfoldable pub ether_type_of : OptType → ℕ
ether_type_of dot1q = ether_type_vlan
ether_type_of dot1ad = ether_type_qinq
ether_type_of ipv4 = ether_type_ipv4
ether_type_of _ = 0x9000

module _ (next : ℕ → M OptType) where
  -- `_encode_ether`: the header is at the start of the frame, wherever the layer stands.
  unfoldable pub encode_ether : ℕ → M OptType
  encode_ether lidx = do
    opt ← lopt lidx
    unformat_at 0 (codes "FFFF:FFFF:FFFF")
    unformat_at 6 (codes "0000:0000:0000")
    set_opt_length lidx 14
    add_data_len 14
    str ← param_text opt.param_str
    toks ← encode_opts str
    for_params ether_kvps ether_key toks tt
    nxt ← next (lidx + 1)
    poke_be16 12 (ether_type_of nxt)
    pure ether

-- The local variables of `_encode_vlan`.
pub record Tci : Type 0 where
  pub vid : ℕ
  pub prio : ℕ
  pub cfi : ℕ

abbrev pub tci_defaults : Tci
tci_defaults = record { vid = 1; prio = 7; cfi = 0 }

abbrev pub vlan_kvps : List Bytes
vlan_kvps = codes "vlan" ∷ codes "prio" ∷ codes "cfi" ∷ []

unfoldable pub vlan_key : ℕ → Bytes → Tci → M Tci
unfolding strtol_or_fail pure err_ret
vlan_key zero val t = do z ← strtol_or_fail val; pure (record t { vid = to_word 12 z })
vlan_key (suc zero) val t = do
  z ← strtol_or_fail val
  pure (record t { prio = to_word 3 z * 2 ^ 13 })
vlan_key (suc (suc zero)) val t = do
  z ← strtol_or_fail val
  pure (record t { cfi = to_word 1 z * 2 ^ 12 })
vlan_key (suc (suc (suc i))) val t = err_ret

-- `vid | prio | cfi`.
unfoldable pub tci_word : Tci → ℕ
tci_word t = bit_or (bit_or t.vid t.prio) t.cfi

-- The switch on the next layer, on the header at `off`.
unfoldable pub vlan_proto : Bool → ℕ → OptType → M (Unit {0})
unfolding poke err_ret pure
vlan_proto true off dot1q = poke_be16 (off + 2) ether_type_vlan
vlan_proto false off dot1q = err_ret
vlan_proto ad off ipv4 = poke_be16 (off + 2) ether_type_ipv4
vlan_proto ad off dot1ad = poke_be16 (off + 2) ether_type_qinq
vlan_proto ad off _ = pure tt

module _ (next : ℕ → M OptType) where
  -- `_encode_vlan`.
  unfoldable pub encode_vlan : Bool → ℕ → M OptType
  encode_vlan is_dot1ad lidx = do
    opt ← lopt lidx
    str ← param_text opt.param_str
    toks ← encode_opts str
    t ← for_params vlan_kvps vlan_key toks tci_defaults
    off ← fbuf_data_len
    set_opt_length lidx 4
    add_data_len 4
    poke_be16 off (tci_word t)
    poke_be16 (off + 2) 0
    nxt ← next (lidx + 1)
    vlan_proto is_dot1ad off nxt
    pure (if is_dot1ad then dot1ad else dot1q)

  -- `_encode_ipv6`: only the length is accounted for.
  unfoldable pub encode_ipv6 : ℕ → M OptType
  encode_ipv6 lidx = do
    opt ← lopt lidx
    set_opt_length lidx 40
    add_data_len 40
    nxt ← next (lidx + 1)
    pure ipv6

  -- `_encode_echo` and `_encode_raw` make room for a TCP header's twenty bytes.
  unfoldable pub encode_echo : ℕ → M OptType
  encode_echo lidx = do opt ← lopt lidx; add_data_len 20; nxt ← next (lidx + 1); pure echo

  unfoldable pub encode_raw : ℕ → M OptType
  encode_raw lidx = do opt ← lopt lidx; add_data_len 20; nxt ← next (lidx + 1); pure raw

-- TIMESTAMP_ID of lib/core/decode.h joins its bytes by `||`.
abbrev pub timestamp_id : ℕ
timestamp_id = 1

abbrev pub vxlan_flags : OptType → List ℕ
vxlan_flags ether = 8 ∷ 0 ∷ 0 ∷ 3 ∷ []
vxlan_flags _ = 8 ∷ 0 ∷ 0 ∷ 0 ∷ []

module _ (next : ℕ → M OptType) where
  -- `_encode_tsc`: a tsc_t is a uint32_t, four bytes of padding and a uint64_t.
  unfoldable pub encode_tsc : ℕ → M OptType
  encode_tsc lidx = do
    opt ← lopt lidx
    off ← fbuf_data_len
    fill_at off 0 16
    modify_frame (λ f. record f { tsc_off = f.data_len })
    poke off (timestamp_id ∷ 0 ∷ 0 ∷ 0 ∷ [])
    fill_at (off + 8) 0 8
    add_data_len 16
    nxt ← next (lidx + 1)
    pure tsc

  -- `_encode_vxlan`: htonl(1000) in the VNI word, and bit 27 with the next protocol in the flags.
  unfoldable pub encode_vxlan : ℕ → M OptType
  encode_vxlan lidx = do
    opt ← lopt lidx
    off ← fbuf_data_len
    fill_at off 0 8
    poke (off + 4) (0 ∷ 0 ∷ 3 ∷ 232 ∷ [])
    add_data_len 8
    nxt ← next (lidx + 1)
    poke off (vxlan_flags nxt)
    pure vxlan

abbrev pub eth_zlen : ℕ
eth_zlen = 60

abbrev pub eth_frame_len : ℕ
eth_frame_len = 1514

-- `_encode_done`: the frame's length is brought into the range of an Ethernet frame.
unfoldable pub encode_done : ℕ → M OptType
encode_done lidx = do
  opt ← lopt lidx
  n ← fbuf_data_len
  if ltb n eth_zlen then set_data_len eth_zlen else pure tt
  n' ← fbuf_data_len
  if ltb eth_frame_len n' then set_data_len eth_frame_len else pure tt
  pure done
