-- ===== src/Decode/Ends.antt =====
-- The decoder ends, with a text that fits its buffer.
use fgen.Prelude.{
  ℕ, zero, suc, ◌+◌, ◌-◌, ◌^◌, ◌≤◌, ◌<◌, ◌≡◌, refl, Bool, true, false, [], ◌∷◌, ltb, length, arith,
  Bool-cases, inl, inr, u16,
}
use fgen.CString.{Bytes}
use fgen.Frame.{OptType, ipv4, ipv6, udp, tcp}
use fgen.Decode.{Dc, Answer, done, failed, fault, stuck, Act, ◌⨾◌, say, skip}
use fgen.Decode.Format.{isprint}
use fgen.Decode.Layers.{
  raw_bytes, raw_text, decode_raw, decode_payload, decode_tsc, decode_udp, decode_tcp, decode_proto,
  decode_ipv4, decode_ipv6, vlan_rest, decode_vlan, ether_rest, decode_ether, decode_from, decode,
  started,
}
use fgen.Decode.Steps.{
  Ends, At, Leads, Steps, Anywhere, Goes, step_rules, Steps-seq, Steps-say, Steps-if,
  Steps-with_header, Steps-Anywhere, Steps-return_ok, Steps-return_error, Keep-seq, Near,
  bytes_at-Leads, header-Leads,
}

module _ {mem : Bytes} (room : ℕ → Bool) (ntop6 : Bytes → Bytes) where
  raw_bytes-Goes : (s : Bytes) → Goes mem (raw_bytes room ntop6 s)
  unfolding raw_bytes
  raw_bytes-Goes [] = Steps-return_ok
  raw_bytes-Goes (c ∷ s) =
      Keep-seq _ _ (Steps-if (isprint c) _ _ (Steps-say room _) (Steps-say room _))
        (raw_bytes-Goes s)

  raw_text-Goes : (n : ℕ) (p : Bytes) → Goes mem (raw_text room ntop6 n p)
  unfolding raw_text
  raw_text-Goes n p = search (step_rules, raw_bytes-Goes)

  decode_raw-Goes : Goes mem (decode_raw room ntop6)
  unfolding decode_raw
  decode_raw-Goes = record {
    at = λ dc p. elim (Bool-cases (ltb dc.data_off dc.data_len)) [
      | inl more ↦ rw more (
          (Steps-with_header (dc.data_len - dc.data_off) _
              (raw_text-Goes (dc.data_len - dc.data_off))).at
            dc p)
      | inr none_left ↦ rw none_left p
    ];
  }

  payload_length-Goes : (text : Dc → Bytes) → Goes mem (λ dc. say room (text dc) dc)
  payload_length-Goes text = record { at = λ dc p. (Steps-say room (text dc)).at dc p }

  decode_payload-Goes : Goes mem (decode_payload room ntop6)
  unfolding decode_payload
  decode_payload-Goes = search (step_rules, decode_raw-Goes, payload_length-Goes)

  decode_tsc-Goes : Goes mem (decode_tsc room ntop6)
  unfolding decode_tsc
  decode_tsc-Goes = search (step_rules, decode_payload-Goes) depth 20

  decode_udp-Goes : Goes mem (decode_udp room ntop6)
  unfolding decode_udp
  decode_udp-Goes = search (step_rules, decode_tsc-Goes) depth 20

  decode_tcp-Goes : Goes mem (decode_tcp room ntop6)
  unfolding decode_tcp
  decode_tcp-Goes = search (step_rules, decode_tsc-Goes) depth 20

  decode_proto-Goes : (proto : ℕ) → Goes mem (decode_proto room ntop6 proto)
  unfolding decode_proto
  decode_proto-Goes proto = search (step_rules, decode_udp-Goes, decode_tcp-Goes, decode_tsc-Goes)

  decode_ipv4-Goes : Goes mem (decode_ipv4 room ntop6)
  unfolding decode_ipv4
  decode_ipv4-Goes = search (step_rules, decode_proto-Goes) depth 20

  decode_ipv6-Goes : Goes mem (decode_ipv6 room ntop6)
  unfolding decode_ipv6
  decode_ipv6-Goes = search (step_rules, decode_proto-Goes) depth 20

module _ {mem : Bytes} (room : ℕ → Bool) (ntop6 : Bytes → Bytes) (short : length mem < 2 ^ 16) where
  vlan_rest-Steps :
      {O : ℕ → Type 0} (q ad : Act) (is_dot1ad : Bool) (h : Bytes)
      → Steps mem O Anywhere q
      → Steps mem O Anywhere ad
      → Steps mem O Anywhere (vlan_rest room ntop6 q ad is_dot1ad h)
  unfolding vlan_rest
  vlan_rest-Steps q ad is_dot1ad h on_q on_ad = Steps-seq _ _ (Steps-say room _) (
      Steps-seq _ _ (Steps-say room _) (
        Steps-seq _ _ (Steps-say room _) search
          (Steps-if, Steps-Anywhere, Steps-return_error, decode_ipv4-Goes, decode_ipv6-Goes) depth
          20))

  decode_vlan-Leads :
      (fuel : ℕ) (is_dot1ad : Bool) (dc : Dc)
      → At mem (Near (length mem) fuel) dc
      → Leads mem Anywhere (decode_vlan room ntop6 fuel is_dot1ad dc)
  unfolding decode_vlan ◌⨾◌ skip
  decode_vlan-Leads zero is_dot1ad dc p = absurd (omega (arith, p.offset))
  decode_vlan-Leads (suc fuel) is_dot1ad dc p = header-Leads Anywhere 4 _ dc p.same (λ h readable.
      (vlan_rest-Steps (decode_vlan room ntop6 fuel false) (decode_vlan room ntop6 fuel true)
          is_dot1ad h (record { at = decode_vlan-Leads fuel false })
          (record { at = decode_vlan-Leads fuel true })).at
        (record dc { data_off = u16 (dc.data_off + 4) })
        (record { fits = p.fits; same = p.same; offset = (omega arith, omega (arith, p.offset)) }))

  Steps-skip_ether :
      14 ≤ length mem → Steps mem (λ off. off ≡ 0) (Near (length mem) (length mem)) (skip 14)
  unfolding skip
  Steps-skip_ether some_data = record {
    at = λ dc p. record {
      fits = p.fits;
      same = p.same;
      offset = (omega (arith, p.offset), omega (arith, p.offset));
    };
  }

  decode_ether-Leads :
      (dc : Dc)
      → At mem (λ off. off ≡ 0) dc
      → Leads mem Anywhere (decode_ether room ntop6 (length mem) dc)
  unfolding decode_ether
  decode_ether-Leads dc p =
      bytes_at-Leads Anywhere 0 14 _ dc p.same (λ h readable. (steps h readable).at dc p)
    where
      vlans :
          (b : Bool)
          → Steps mem
              (Near (length mem) (length mem))
              Anywhere
              (decode_vlan room ntop6 (length mem) b)
      vlans b = record { at = decode_vlan-Leads (length mem) b }

      steps :
          (h : Bytes)
          → 14 ≤ length mem
          → Steps mem (λ off. off ≡ 0) Anywhere (ether_rest room ntop6 (length mem) h)
      steps h readable = Steps-seq _ _ (Steps-say room _) (
          Steps-seq _ _ (Steps-say room _) (
            Steps-seq _ _ (Steps-say room _) (
              Steps-seq _ _ (Steps-say room _) (
                Steps-seq _ _ (Steps-skip_ether readable) search
                  (Steps-if, vlans, Steps-Anywhere, Steps-return_error, decode_ipv4-Goes) depth
                  20))))

  decode_from-Leads :
      (opt : OptType) (dc : Dc)
      → At mem (λ off. off ≡ 0) dc
      → Leads mem Anywhere (decode_from room ntop6 (length mem) opt dc)
  unfolding decode_from
  decode_from-Leads ipv4 dc p = (Steps-Anywhere _ (decode_ipv4-Goes room ntop6)).at dc p
  decode_from-Leads ipv6 dc p = (Steps-Anywhere _ (decode_ipv6-Goes room ntop6)).at dc p
  decode_from-Leads udp dc p = (Steps-Anywhere _ (decode_udp-Goes room ntop6)).at dc p
  decode_from-Leads tcp dc p = (Steps-Anywhere _ (decode_tcp-Goes room ntop6)).at dc p
  decode_from-Leads _ dc p = decode_ether-Leads dc p

Leads-Ends : (mem : Bytes) (r : Answer) → Leads mem Anywhere r → Ends r
Leads-Ends mem (done dc) h = h.fits
Leads-Ends mem (failed dc) h = h
Leads-Ends mem fault h = tt
Leads-Ends mem stuck h = h

-- `fgen_decode` ends for every protocol it starts from, whatever the heap answers: on data of fewer
-- than 2 ^ 16 bytes its fuel, the length of the data, is enough for every chain of tags. When it
-- ends without a read past the data, the text with its NUL fits the buffer, if there is one, whose
-- length is between 256 and 4096.
pub decode-Ends :
    (room : ℕ → Bool) (ntop6 : Bytes → Bytes) (frame_data : Bytes) (len : ℕ) (opt : OptType)
    → length frame_data < 2 ^ 16
    → Ends (decode room ntop6 frame_data len opt)
unfolding decode
decode-Ends room ntop6 frame_data zero opt short = tt
decode-Ends room ntop6 frame_data (suc n) opt short = Leads-Ends frame_data _ (
    decode_from-Leads room ntop6 short opt (started room ntop6 frame_data (suc n))
      (record { fits = tt; same = refl; offset = refl }))
