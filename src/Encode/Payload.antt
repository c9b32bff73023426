-- ===== src/Encode/Payload.antt =====
-- `_encode_payload` of encode.c: the size of the frame and the bytes that fill it.
use fgen.Prelude.{
  ℕ, zero, suc, ◌+◌, ◌-◌, ◌^◌, Bool, true, false, List, [], ◌∷◌, ltb, ◌==◌, if◌then◌else◌,
}
use fgen.Prelude.Int.{ℤ, pos, negsuc, ◌+ℤ◌, ltb_ℤ, to_word, to_int}
use fgen.CString.{Bytes, codes}
use fgen.Frame.{OptType, payload}
use fgen.Encode.Machine.{
  M, ◌>>=◌, ◌>>◌, pure, err_ret, crash, fbuf_data_len, set_data_len, fill_at, lopt, strtol_or_fail,
}
use fgen.Encode.Params.{encode_opts, for_params, param_text}

-- The local variables of `_encode_payload`: `only` counts size and append keys, and pktlen and fill
-- are ints.
pub record Sizing : Type 0 where
  pub only : Bool
  pub pktlen : ℤ
  pub fill : ℤ

abbrev pub filler_pattern : ℕ
filler_pattern = b'%'

abbrev pub payload_kvps : List Bytes
payload_kvps = codes "size" ∷ codes "append" ∷ codes "fill" ∷ []

-- The size of the frame without its CRC, for a size that counts it: between ETHER_MIN_LEN and
-- ETHER_MAX_LEN.
unfoldable pub clamp_size : ℤ → ℕ
clamp_size (negsuc n) = 60
clamp_size (pos n) = if ltb n 64 then 60 else if ltb 1518 n then 1514 else n - 4

-- `pktlen += append` on ints; a sum past INT_MAX is undefined.
unfoldable pub add_int : ℤ → ℤ → M ℤ
unfolding pure crash
add_int a b = let sum = a +ℤ b in if ltb_ℤ (pos (2 ^ 31 - 1)) sum then crash else pure sum

unfoldable pub payload_key : ℕ → Bytes → Sizing → M Sizing
unfolding strtol_or_fail pure err_ret add_int clamp_size
payload_key zero val z = if z.only then err_ret else do
  v ← strtol_or_fail val
  pure (record z { only = true; pktlen = pos (clamp_size (to_int v)) })
payload_key (suc zero) val z = if z.only then err_ret else do
  v ← strtol_or_fail val
  len ← add_int z.pktlen (to_int v)
  pure (record z { only = true; pktlen = len })
payload_key (suc (suc zero)) val z = do v ← strtol_or_fail val; pure (record z { fill = to_int v })
payload_key (suc (suc (suc i))) val z = err_ret

abbrev pub fill_between : ℕ → ℤ → ℤ → M (Unit {0})
fill_between plen fill (pos n) =
    if ltb plen n then fill_at plen (to_word 8 fill) (n - plen) else pure tt
fill_between plen fill (negsuc n) = pure tt

-- The first memset, when the frame grows past its length plen.
unfoldable pub fill_growth : ℕ → Sizing → M (Unit {0})
unfolding fill_at pure
fill_growth plen z = fill_between plen z.fill z.pktlen

-- The memset from pktlen to the length that the layers behind left: a shorter length gives memset
-- a size near SIZE_MAX, and a negative pktlen an address before the block (data_off is 0).
unfoldable pub fill_from : ℤ → ℤ → ℕ → M (Unit {0})
unfolding fill_at crash
fill_from (pos n) fill len = if ltb len n then crash else fill_at n (to_word 8 fill) (len - n)
fill_from (negsuc n) fill len = crash

abbrev pub eq_len : ℤ → ℕ → Bool
eq_len (pos n) len = n == len
eq_len (negsuc n) len = false

abbrev pub is_zero : ℤ → Bool
is_zero (pos n) = n == 0
is_zero (negsuc n) = false

unfoldable pub fill_tail : Sizing → ℕ → M (Unit {0})
unfolding fill_from pure
fill_tail z len =
    if eq_len z.pktlen len
    then pure tt
    else if is_zero z.fill
    then pure tt
    else fill_from z.pktlen z.fill len

module _ (next : ℕ → M OptType) where
  -- `_encode_payload`.
  unfoldable pub encode_payload : ℕ → M OptType
  encode_payload lidx = do
    opt ← lopt lidx
    str ← param_text opt.param_str
    toks ← encode_opts str
    plen ← fbuf_data_len
    z ←
        for_params payload_kvps payload_key toks
          (record { only = false; pktlen = pos plen; fill = pos filler_pattern })
    set_data_len (to_word 16 z.pktlen)
    fill_growth plen z
    nxt ← next (lidx + 1)
    len ← fbuf_data_len
    fill_tail z len
    pure payload
