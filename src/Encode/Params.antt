-- ===== src/Encode/Params.antt =====
-- The parameters of a layer: `_encode_opts`, `_encode_vars`, `parser_kvp` and the loop over them.
use fgen.Prelude.{ℕ, ◌+◌, Option, none, some, List, [], ◌∷◌, if◌then◌else◌, length}
use fgen.CString.{Bytes, codes, strncasecmp_eq}
use fgen.Strings.{strtrim, strtrimset, fgen_strtok}
use fgen.Frame.{max_params, max_kvp_tokens}
use fgen.Encode.Machine.{M, ◌>>=◌, pure, err_ret, crash}

abbrev pub text_or_crash : Option Bytes → M Bytes
text_or_crash none = crash
text_or_crash (some s) = pure s

-- `strtrimset(strtrim(str), "()")`, whose NULL goes into strlen.
unfoldable pub trim_parens : Bytes → M Bytes
unfolding pure crash
trim_parens str = text_or_crash (strtrimset (strtrim str) b'(' b')')

abbrev pub tokens_or_fail : Option (List Bytes) → M (List Bytes)
tokens_or_fail none = err_ret
tokens_or_fail (some toks) = pure toks

abbrev pub split_opts : Bytes → M (List Bytes)
split_opts [] = pure []
split_opts (c ∷ s) = tokens_or_fail (fgen_strtok (c ∷ s) (codes ", ") max_params)

-- `_encode_opts`, and the check of its result.
unfoldable pub encode_opts : Bytes → M (List Bytes)
unfolding trim_parens pure err_ret
encode_opts str = do s ← trim_parens str; split_opts s

-- Exactly two tokens are a key and a value.
abbrev key_value : Option (List Bytes) → Option (Bytes × Bytes)
key_value (some (k ∷ v ∷ [])) = some (k, v)
key_value _ = none

abbrev split_vars : Bytes → Option (Bytes × Bytes)
split_vars [] = none
split_vars (c ∷ s) = key_value (fgen_strtok (c ∷ s) (codes "= ") max_kvp_tokens)

-- `_encode_vars`: the key and the value, or none for a result that is not positive.
unfoldable pub encode_vars : Bytes → M (Option (Bytes × Bytes))
unfolding trim_parens pure
encode_vars str = do s ← trim_parens str; pure (split_vars s)

-- The first key of the table that the text begins with, whatever its case.
unfoldable pub find_key : List Bytes → Bytes → ℕ → Option ℕ
unfolding strncasecmp_eq
find_key [] key i = none
find_key (k ∷ ks) key i =
    let r = find_key ks key (i + 1) in if strncasecmp_eq key k (length k) then some i else r

abbrev with_value : Bytes → Option ℕ → Option (ℕ × Bytes)
with_value val none = none
with_value val (some i) = some (i, val)

abbrev look_up : List Bytes → Option (Bytes × Bytes) → Option (ℕ × Bytes)
look_up kvps none = none
look_up kvps (some (k, v)) = with_value v (find_key kvps k 0)

-- `parser_kvp`: the index of the key and its value, or none for -1.
unfoldable pub parser_kvp : Bytes → List Bytes → M (Option (ℕ × Bytes))
unfolding encode_vars find_key pure
parser_kvp param kvps = do kv ← encode_vars param; pure (look_up kvps kv)

module _ {ℓ} {S : Type ℓ} (kvps : List Bytes) (handle : ℕ → Bytes → S → M S) where
  abbrev pub handle_kvp : Option (ℕ × Bytes) → S → M S
  handle_kvp none acc = err_ret
  handle_kvp (some (i, val)) acc = handle i val acc

  -- `for (i = 0; i < num; i++) switch (parser_kvp(params[i], …))`, over the layer's own variables.
  unfoldable pub for_params : List Bytes → S → M S
  unfolding parser_kvp pure err_ret
  for_params [] acc = pure acc
  for_params (p ∷ ps) acc = do kv ← parser_kvp p kvps; acc' ← handle_kvp kv acc; for_params ps acc'

-- The parameter text of a layer; the done layer's NULL is never read.
unfoldable pub param_text : Option Bytes → M Bytes
unfolding crash pure
param_text none = crash
param_text (some s) = pure s
