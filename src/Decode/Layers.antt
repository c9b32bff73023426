-- ===== src/Decode/Layers.antt =====
-- The protocols of decode.c, and `fgen_decode`.
use fgen.Prelude.{
  ℕ, zero, suc, ◌+◌, ◌-◌, ◌*◌, ◌/◌, ◌%◌, ◌^◌, Bool, true, false, ◌&&◌, none, [], ◌∷◌, ◌++◌, ltb,
  ◌==◌, if◌then◌else◌, length, take, drop,
}
use fgen.CString.{Bytes, codes}
use fgen.CString.Number.{print_decimal}
use fgen.Cksum.{byte_at, be16_at, le16, ipproto_tcp, ipproto_udp}
use fgen.Ether.{ether_format_addr}
use fgen.Frame.{OptType, ipv4, ipv6, udp, tcp}
use fgen.Encode.Layers.{timestamp_id}
use fgen.Decode.{
  Dc, Answer, done, failed, stuck, Act, ◌⨾◌, say, skip, with_header, with_bytes_at, return_error,
  return_ok,
}
use fgen.Decode.Format.{print_hex_fixed, print_hex, print_hex_prefixed, inet_ntop, isprint}

-- `ntohl` of the four bytes at i, and the uint32_t and uint64_t there.
abbrev be32_at : Bytes → ℕ → ℕ
be32_at h i = be16_at h i * 2 ^ 16 + be16_at h (i + 2)

abbrev le16_at : Bytes → ℕ → ℕ
le16_at h i = le16 (byte_at h i) (byte_at h (i + 1))

abbrev le32_at : Bytes → ℕ → ℕ
le32_at h i = le16_at h i + 2 ^ 16 * le16_at h (i + 2)

abbrev le64_at : Bytes → ℕ → ℕ
le64_at h i = le32_at h i + 2 ^ 32 * le32_at h (i + 4)

-- `room` is the heap, and `ntop6` is `inet_ntop(AF_INET6, …)` of sixteen bytes.
module _ (room : ℕ → Bool) (ntop6 : Bytes → Bytes) where
  -- The loop of `_decode_raw`.
  unfoldable pub raw_bytes : Bytes → Act
  unfolding print_hex_fixed
  raw_bytes [] = return_ok
  raw_bytes (c ∷ s) =
      (if isprint c then say room (c ∷ []) else say room (codes "\\x" ++ print_hex_fixed 2 c))
      ⨾ raw_bytes s

  -- `_decode_raw`: the n bytes p that are left.
  unfoldable pub raw_text : ℕ → Bytes → Act
  unfolding raw_bytes
  raw_text n p = say room (codes "Raw('") ⨾ raw_bytes p ⨾ say room (codes "')/") ⨾ skip n

  unfoldable pub decode_raw : Act
  unfolding raw_text
  decode_raw dc =
      if ltb dc.data_off dc.data_len
      then with_header (dc.data_len - dc.data_off) (raw_text (dc.data_len - dc.data_off)) dc
      else done dc

  -- `_decode_payload`.
  unfoldable pub decode_payload : Act
  unfolding decode_raw print_decimal
  decode_payload =
      decode_raw
      ⨾ (λ dc. say room (codes "Payload(len=" ++ print_decimal (dc.data_len + 4)) dc)
      ⨾ say room (codes ")")

  -- `_decode_tsc`: the stamp's value is behind four bytes of padding.
  unfoldable pub decode_tsc : Act
  unfolding decode_payload print_hex_fixed
  decode_tsc =
      with_header 4 (λ id.
        if le32_at id 0 == timestamp_id
        then with_header 16 (λ h.
          say room (codes "TSC(")
          ⨾ say room (codes "0x" ++ print_hex_fixed 16 (le64_at h 8))
          ⨾ say room (codes ")/")
          ⨾ skip 16)
        else return_ok)
      ⨾ decode_payload

  -- `_decode_udp`.
  unfoldable pub decode_udp : Act
  unfolding decode_tsc print_decimal print_hex
  decode_udp = with_header 8 (λ h.
      skip 8
      ⨾ say room (codes "UDP(")
      ⨾ say room (
          codes "dport="
          ++ print_decimal (be16_at h 2)
          ++ codes ",sport="
          ++ print_decimal (be16_at h 0)
          ++ codes ",len="
          ++ print_decimal (be16_at h 4)
          ++ codes ",cksum=0x"
          ++ print_hex (le16_at h 6))
      ⨾ say room (codes ")/")
      ⨾ decode_tsc)

  -- `_decode_tcp`; the format ",urp=%%x" prints no number.
  unfoldable pub decode_tcp : Act
  unfolding decode_tsc print_decimal print_hex_prefixed
  decode_tcp = with_header 20 (λ h.
      skip 20
      ⨾ say room (codes "TCP(")
      ⨾ say room (codes "sport=" ++ print_decimal (be16_at h 0))
      ⨾ say room (codes ",dport=" ++ print_decimal (be16_at h 2))
      ⨾ say room (codes ",seq=" ++ print_decimal (be32_at h 4))
      ⨾ say room (codes ",ack=" ++ print_decimal (be32_at h 8))
      ⨾ say room (codes ",data_off=" ++ print_decimal (byte_at h 12))
      ⨾ say room (codes ",flags=" ++ print_hex_prefixed (byte_at h 13))
      ⨾ say room (codes ",win=" ++ print_hex_prefixed (be16_at h 14))
      ⨾ say room (codes ",cksum=" ++ print_hex_prefixed (be16_at h 16))
      ⨾ say room (codes ",urp=%x")
      ⨾ say room (codes ")/")
      ⨾ decode_tsc)

  -- The switch on the protocol at the end of `_decode_ipv4` and `_decode_ipv6`.
  unfoldable pub decode_proto : ℕ → Act
  unfolding decode_udp decode_tcp decode_tsc print_decimal
  decode_proto proto =
      if proto == ipproto_udp
      then say room (codes ",proto=udp)/") ⨾ decode_udp
      else if proto == ipproto_tcp
      then say room (codes ",proto=tcp)/") ⨾ decode_tcp
      else say room (codes ",proto=" ++ print_decimal proto ++ codes ")/") ⨾ decode_tsc

  -- `_decode_ipv4`: the id is printed from the length, and `ntohs` shifts the time to live.
  unfoldable pub decode_ipv4 : Act
  unfolding decode_proto print_decimal print_hex_prefixed inet_ntop
  decode_ipv4 = with_header 20 (λ h.
      skip 20
      ⨾ say room (codes "IPv4(")
      ⨾ say room (codes "version_ihl=" ++ print_hex_prefixed (byte_at h 0))
      ⨾ say room (codes ",tos=" ++ print_hex_prefixed (byte_at h 1))
      ⨾ say room (codes ",len=" ++ print_decimal (be16_at h 2))
      ⨾ say room (codes ",id=" ++ print_hex_prefixed (be16_at h 2))
      ⨾ say room (codes ",fragoff=" ++ print_decimal (be16_at h 6))
      ⨾ say room (codes ",ttl=" ++ print_decimal (256 * byte_at h 8))
      ⨾ say room (codes ",cksum=" ++ print_decimal (be16_at h 10))
      ⨾ say room (codes "dst=" ++ inet_ntop h 16)
      ⨾ say room (codes ",src=" ++ inet_ntop h 12)
      ⨾ decode_proto (byte_at h 9))

  -- `_decode_ipv6`.
  unfoldable pub decode_ipv6 : Act
  unfolding decode_proto print_decimal print_hex_prefixed
  decode_ipv6 = with_header 40 (λ h.
      skip 40
      ⨾ say room (codes "IPv6(")
      ⨾ say room (codes "vtc=" ++ print_hex_prefixed (be32_at h 0))
      ⨾ say room (codes ",len=" ++ print_hex_prefixed (be16_at h 4))
      ⨾ say room (codes ",hops=" ++ print_decimal (byte_at h 7))
      ⨾ say room (codes "dst=" ++ ntop6 (drop 24 h))
      ⨾ say room (codes ",src=" ++ ntop6 (take 16 (drop 8 h)))
      ⨾ decode_proto (byte_at h 6))

  abbrev pub tag_name : Bool → Bytes
  tag_name is_dot1ad = if is_dot1ad then codes "Dot1AD(" else codes "Dot1Q("

  -- The text of a tag control word.
  unfoldable pub tag_text : ℕ → Bytes
  unfolding print_decimal
  tag_text tci =
      codes "vid="
      ++ print_decimal (tci % 2 ^ 12)
      ++ codes ",prio="
      ++ print_decimal (tci / 2 ^ 13 % 8)
      ++ codes ",cfi="
      ++ print_decimal (tci / 2 ^ 12 % 2)

  -- `_decode_vlan` behind its header h, with the calls of `_decode_dot1q` and `_decode_dot1ad`.
  unfoldable pub vlan_rest : Act → Act → Bool → Bytes → Act
  unfolding decode_ipv4 decode_ipv6 tag_text
  vlan_rest dot1q dot1ad is_dot1ad h =
      say room (tag_name is_dot1ad)
      ⨾ say room (tag_text (be16_at h 0))
      ⨾ say room (codes ")/")
      ⨾ (let proto = be16_at h 2 in
          if is_dot1ad && proto == 0x8100
          then dot1q
          else if proto == 0x88a8
          then dot1ad
          else if proto == 0x0800
          then decode_ipv4
          else if proto == 0x86dd
          then decode_ipv6
          else return_error)

  -- `_decode_vlan`, with fuel for the tags that are left.
  unfoldable pub decode_vlan : ℕ → Bool → Act
  unfolding vlan_rest
  decode_vlan zero is_dot1ad dc = stuck
  decode_vlan (suc fuel) is_dot1ad dc =
      let dot1q = decode_vlan fuel false in
      let dot1ad = decode_vlan fuel true in
      with_header 4 (λ h. skip 4 ⨾ vlan_rest dot1q dot1ad is_dot1ad h) dc

  -- `_decode_ether` on its header h: the tag types are handed to each other's function.
  unfoldable pub ether_rest : ℕ → Bytes → Act
  unfolding decode_vlan decode_ipv4
  ether_rest fuel h =
      say room (codes "Ether(")
      ⨾ say room (codes "dst=" ++ ether_format_addr (take 6 h))
      ⨾ say room (codes ",src=" ++ ether_format_addr (take 6 (drop 6 h)))
      ⨾ say room (codes ")/")
      ⨾ skip 14
      ⨾ (let proto = be16_at h 12 in
          if proto == 0x8100
          then decode_vlan fuel true
          else if proto == 0x88a8
          then decode_vlan fuel false
          else if proto == 0x0800
          then decode_ipv4
          else return_error)

  unfoldable pub decode_ether : ℕ → Act
  unfolding ether_rest
  decode_ether fuel = with_bytes_at 0 14 (ether_rest fuel)

  -- The switch of `fgen_decode`.
  unfoldable pub decode_from : ℕ → OptType → Act
  unfolding decode_ether decode_ipv4 decode_ipv6 decode_udp decode_tcp
  decode_from fuel ipv4 = decode_ipv4
  decode_from fuel ipv6 = decode_ipv6
  decode_from fuel udp = decode_udp
  decode_from fuel tcp = decode_tcp
  decode_from fuel _ = decode_ether fuel

  abbrev pub started : Bytes → ℕ → Dc
  started frame_data len = record {
    frame_data = frame_data;
    data_len = len;
    data_off = 0;
    buffer = none;
    buf_len = 0;
    used = 0;
  }

  -- `fgen_decode` of the len bytes at `frame_data`, which may have more behind them: the state
  -- after 0, which is answered by the length of the buffer, or after -1.
  unfoldable pub decode : Bytes → ℕ → OptType → Answer
  unfolding decode_from
  decode frame_data zero opt = failed (started frame_data 0)
  decode frame_data (suc n) opt = decode_from (length frame_data) opt (started frame_data (suc n))
