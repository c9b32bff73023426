-- ===== src/Encode/Inet.antt =====
-- The layers of encode.c with ports, addresses and checksums: IPv4, UDP and TCP.
use fgen.Prelude.{
  ℕ, zero, suc, ◌+◌, ◌-◌, ◌*◌, ◌/◌, ◌%◌, ◌^◌, Option, none, some, List, [], ◌∷◌, u16,
}
use fgen.Prelude.Int.{to_word}
use fgen.CString.{Bytes, codes}
use fgen.CString.Number.{inet_pton}
use fgen.Cksum.{byte_at, ipv4_cksum, ipv4_udptcp_cksum, ipproto_tcp, ipproto_udp}
use fgen.Frame.{OptType, ipv4, udp, tcp, vxlan, echo}
use fgen.Encode.Machine.{
  M, ◌>>=◌, ◌>>◌, pure, err_ret, of_option, fbuf_data_len, add_data_len, poke, poke_8, poke_be16,
  bytes_at, fill_at, lopt, set_opt_length, strtol_or_fail,
}
use fgen.Encode.Params.{encode_opts, for_params, param_text}

-- `inet_pton(AF_INET, s, …)`, which writes nothing when it refuses the text.
abbrev pub poke_addr : ℕ → Option (List ℕ) → M (Unit {0})
poke_addr off none = pure tt
poke_addr off (some a) = poke off a

unfoldable pub pton_at : ℕ → Bytes → M (Unit {0})
unfolding poke pure
pton_at off s = poke_addr off (inet_pton s)

-- A checksum is stored in the order of the machine, low byte first.
abbrev pub poke_le16 : ℕ → ℕ → M (Unit {0})
poke_le16 off v = poke off (u16 v % 256 ∷ u16 v / 256 ∷ [])

abbrev pub inet_kvps : List Bytes
inet_kvps = codes "dst" ∷ codes "src" ∷ []

unfoldable pub ipv4_key : ℕ → ℕ → Bytes → Unit {0} → M (Unit {0})
unfolding pton_at err_ret
ipv4_key off zero val acc = pton_at (off + 16) val
ipv4_key off (suc zero) val acc = pton_at (off + 12) val
ipv4_key off (suc (suc i)) val acc = err_ret

-- The switch of `_encode_ipv4` on the next layer, with the header at `off`: the UDP or TCP header
-- stands where the header length in memory says.
unfoldable pub ipv4_proto : ℕ → OptType → M (Unit {0})
ipv4_proto off udp = do
  poke_8 (off + 9) ipproto_udp
  hdr ← bytes_at off
  let l4 = off + byte_at hdr 0 % 16 * 4
  poke_be16 (l4 + 6) 0
  hdr' ← bytes_at off
  dgram ← bytes_at l4
  cksum ← of_option (ipv4_udptcp_cksum hdr' dgram)
  poke_le16 (l4 + 6) cksum
ipv4_proto off tcp = do
  poke_8 (off + 9) ipproto_tcp
  hdr ← bytes_at off
  let l4 = off + byte_at hdr 0 % 16 * 4
  segment ← bytes_at l4
  cksum ← of_option (ipv4_udptcp_cksum hdr segment)
  poke_le16 (l4 + 16) cksum
ipv4_proto off _ = pure tt

-- The end of `_encode_ipv4`, once the layers behind are written.
unfoldable pub finish_ipv4 : ℕ → ℕ → OptType → M (Unit {0})
unfolding ipv4_proto
finish_ipv4 lidx off nxt = do
  len ← fbuf_data_len
  let total_length = u16 (len + 2 ^ 16 - off)
  set_opt_length lidx total_length
  poke_be16 (off + 2) total_length
  ipv4_proto off nxt
  hdr ← bytes_at off
  cksum ← of_option (ipv4_cksum hdr)
  poke_le16 (off + 10) cksum

-- The fixed fields of `_encode_ipv4`, before the parameters are read.
unfoldable pub start_ipv4 : ℕ → M (Unit {0})
start_ipv4 off = do
  fill_at off 0 20
  poke_8 off 0x45
  poke_be16 (off + 4) 1
  poke_8 (off + 8) 64
  pton_at (off + 16) (codes "192.10.0.2")
  pton_at (off + 12) (codes "192.10.0.1")

-- The ports of `_encode_udp` and `_encode_tcp`.
pub record Ports : Type 0 where
  pub dport : ℕ
  pub sport : ℕ

abbrev pub port_kvps : List Bytes
port_kvps = codes "dport" ∷ codes "sport" ∷ []

unfoldable pub port_key : ℕ → Bytes → Ports → M Ports
unfolding strtol_or_fail pure err_ret
port_key zero val p = do z ← strtol_or_fail val; pure (record p { dport = to_word 16 z })
port_key (suc zero) val p = do z ← strtol_or_fail val; pure (record p { sport = to_word 16 z })
port_key (suc (suc i)) val p = err_ret

-- The switch of `_encode_udp` on the next layer.
unfoldable pub udp_ports : OptType → Ports → Ports
udp_ports echo p = record { dport = 7; sport = 7 }
udp_ports vxlan p = record { dport = 4789; sport = 4789 }
udp_ports _ p = p

module _ (next : ℕ → M OptType) where
  -- `_encode_ipv4`.
  unfoldable pub encode_ipv4 : ℕ → M OptType
  encode_ipv4 lidx = do
    opt ← lopt lidx
    off ← fbuf_data_len
    start_ipv4 off
    str ← param_text opt.param_str
    toks ← encode_opts str
    for_params inet_kvps (ipv4_key off) toks tt
    add_data_len 20
    poke_8 (off + 9) 0
    nxt ← next (lidx + 1)
    finish_ipv4 lidx off nxt
    pure ipv4

  -- `_encode_udp`.
  unfoldable pub encode_udp : ℕ → M OptType
  encode_udp lidx = do
    opt ← lopt lidx
    off ← fbuf_data_len
    fill_at off 0 8
    str ← param_text opt.param_str
    toks ← encode_opts str
    p ← for_params port_kvps port_key toks (record { dport = 5678; sport = 1234 })
    add_data_len 8
    nxt ← next (lidx + 1)
    len ← fbuf_data_len
    let dgram_len = u16 (len + 2 ^ 16 - off)
    poke_be16 (off + 2) (udp_ports nxt p).dport
    poke_be16 off (udp_ports nxt p).sport
    poke_be16 (off + 4) dgram_len
    set_opt_length lidx dgram_len
    pure udp

  -- `_encode_tcp`: the header is written at its place before the layers behind.
  unfoldable pub encode_tcp : ℕ → M OptType
  encode_tcp lidx = do
    opt ← lopt lidx
    off ← fbuf_data_len
    fill_at off 0 20
    str ← param_text opt.param_str
    toks ← encode_opts str
    p ← for_params port_kvps port_key toks (record { dport = 0x1111; sport = 0x1234 })
    add_data_len 20
    nxt ← next (lidx + 1)
    set_opt_length lidx 20
    poke_8 (off + 12) 0x50
    poke_be16 (off + 14) 8192
    poke_8 (off + 13) 2
    poke_be16 (off + 2) p.dport
    poke_be16 off p.sport
    pure tcp
