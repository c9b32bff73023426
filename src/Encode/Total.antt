-- ===== src/Encode/Total.antt =====
-- `next_layer` and `_encode_frame` as a whole.
use fgen.Prelude.{
  ℕ, zero, suc, ◌+◌, ◌-◌, ◌≤◌, ◌<◌, ◌≡◌, refl, Bool, true, false, Option, none, some, List, [], ◌∷◌,
  arith, if◌then◌else◌, length, replicate, ◌⊎◌, inl, inr, ◌↔◌, ◌∙◌, sym,
}
use fgen.CString.{Bytes, codes}
use fgen.Strings.{fgen_strtok}
use fgen.Frame.{
  OptType, ether, dot1q, dot1ad, ipv4, ipv6, udp, tcp, vxlan, echo, tsc, raw, payload, done, Ftable,
  Fopt, no_fopt, no_proto, max_layers,
}
use fgen.Encode.Machine.{Ctx, Outcome, ok, failed, fault, stuck, M, ◌>>=◌, err_ret, crash, gets}
use fgen.Encode.Table.{
  layer_fn, table_or_fail, opt_tbl, layer_at, next_layer, swallow, set_nb_layers, all_opts,
  run_layers, layers_or_fail, encode_frame,
}
use fgen.Encode.Keeps.Rules.{
  Keeps, Inv, Leads-bind, Keeps-pure, Leads-err_ret, Leads-crash, Keeps-gets, Leads-if, After,
  Inv-refl, Kept, Inv-Kept,
}
use fgen.Encode.Keeps.Sized.{
  Sizes, encode_done-Sizes, encode_ether-Sizes, encode_vlan-Sizes, encode_ipv6-Sizes,
  encode_echo-Sizes, encode_raw-Sizes, encode_tsc-Sizes, encode_vxlan-Sizes, encode_ipv4-Sizes,
  encode_udp-Sizes, encode_tcp-Sizes, encode_payload-Sizes,
}

layer_fn-Sizes :
    {s₀ : Ctx} (t : OptType) (next : ℕ → M OptType) (lidx : ℕ)
    → Sizes s₀ (next (lidx + 1))
    → Sizes s₀ (layer_fn t next lidx)
unfolding layer_fn
layer_fn-Sizes ether next lidx h = encode_ether-Sizes next lidx h
layer_fn-Sizes dot1q next lidx h = encode_vlan-Sizes next lidx h false
layer_fn-Sizes dot1ad next lidx h = encode_vlan-Sizes next lidx h true
layer_fn-Sizes ipv4 next lidx h = encode_ipv4-Sizes next lidx h
layer_fn-Sizes ipv6 next lidx h = encode_ipv6-Sizes next lidx h
layer_fn-Sizes udp next lidx h = encode_udp-Sizes next lidx h
layer_fn-Sizes tcp next lidx h = encode_tcp-Sizes next lidx h
layer_fn-Sizes vxlan next lidx h = encode_vxlan-Sizes next lidx h
layer_fn-Sizes echo next lidx h = encode_echo-Sizes next lidx h
layer_fn-Sizes tsc next lidx h = encode_tsc-Sizes next lidx h
layer_fn-Sizes raw next lidx h = encode_raw-Sizes next lidx h
layer_fn-Sizes payload next lidx h = encode_payload-Sizes next lidx h
layer_fn-Sizes done next lidx h = encode_done-Sizes lidx

module _ {P : Ctx → Type 0} where
  Keeps-table_or_fail : (o : Option Ftable) → Keeps P (table_or_fail o)
  Keeps-table_or_fail none = Leads-err_ret
  Keeps-table_or_fail (some t) = Keeps-pure t

  Keeps-opt_tbl : (o : Option Fopt) → Keeps P (opt_tbl o)
  Keeps-opt_tbl none = Leads-crash
  Keeps-opt_tbl (some o) = Keeps-table_or_fail o.tbl

  Keeps-layer_at : (idx : ℕ) → Keeps P (layer_at idx)
  unfolding layer_at
  Keeps-layer_at idx = search (Leads-bind, Keeps-gets, Leads-if, Leads-err_ret, Keeps-opt_tbl)

-- Past the last layer nothing is looked up.
next_layer_past :
    {s₀ : Ctx} (fuel idx : ℕ) → s₀.fg.nb_layers ≤ idx → Sizes s₀ (next_layer (suc fuel) idx)
unfolding next_layer layer_at
next_layer_past fuel idx past = record { at = λ s h. unfold ◌>>=◌ gets err_ret in ground arith }

next_layer_step :
    {s₀ : Ctx} (fuel idx : ℕ)
    → Sizes s₀ (next_layer fuel (idx + 1))
    → Sizes s₀ (next_layer (suc fuel) idx)
unfolding next_layer
next_layer_step fuel idx h =
    Leads-bind _ _ (Keeps-layer_at idx) (λ t. layer_fn-Sizes t.typ (next_layer fuel) idx h)

next_layer-Sizes :
    {s₀ : Ctx} (fuel idx : ℕ)
    → s₀.fg.nb_layers < suc fuel + idx
    → Sizes s₀ (next_layer (suc fuel) idx)
next_layer-Sizes zero idx enough = next_layer_past zero idx (omega arith)
next_layer-Sizes (suc fuel) idx enough =
    next_layer_step (suc fuel) idx (next_layer-Sizes fuel (idx + 1) (omega arith))

-- With more fuel than layers left, the layers from idx on never run out of it, whatever their
-- texts are. When they succeed, the frame is 60 to 1514 bytes long, and its name, its text and
-- place, the list of frames, the number of layers and the size of the block are as before; after
-- -1 all of these but the length are as before.
pub next_layer-After :
    (fuel idx : ℕ) (s : Ctx)
    → s.fg.nb_layers < suc fuel + idx
    → After (Inv false s) (Inv true s) (next_layer (suc fuel) idx s)
next_layer-After fuel idx s enough = (next_layer-Sizes fuel idx enough).at s (Inv-refl s)

After-swallow :
    {A : Type 0} {R P Q : Ctx → Type 0} (o : Outcome A)
    → ((s : Ctx) → P s → R s)
    → ((s : Ctx) → Q s → R s)
    → After P Q o
    → After R R (swallow o)
After-swallow (ok a s) v w h = w s h
After-swallow (failed s) v w h = v s h
After-swallow fault v w h = tt
After-swallow stuck v w h = absurd h

run_layers-After :
    (layers : List Bytes) (s₀ s : Ctx) → Kept s₀ s → After (Kept s₀) (Kept s₀) (run_layers layers s)
unfolding run_layers ◌>>=◌
run_layers-After layers s₀ s k =
    After-swallow _ (λ s'. Inv-Kept k') (λ s'. Inv-Kept k')
      (next_layer-After (length layers + 1) 0 started (omega arith))
  where
    started : Ctx
    started = record s {
      fg = record (s.fg) { opts = all_opts layers; nb_layers = length layers + 1 };
    }

    k' : Kept s₀ started
    k' = ground arith

layers_or_fail-After :
    (o : Option (List Bytes)) (s₀ s : Ctx)
    → Kept s₀ s
    → After (Kept s₀) (Kept s₀) (layers_or_fail o s)
unfolding ◌>>=◌ set_nb_layers err_ret crash
layers_or_fail-After none s₀ s k = tt
layers_or_fail-After (some []) s₀ s k = ground arith
layers_or_fail-After (some (l ∷ ls)) s₀ s k = run_layers-After (l ∷ ls) s₀ s k

-- The state of `_encode_frame` once its tables are cleared.
abbrev cleared : Ctx → Ctx
cleared s = record {
  frame = record (s.frame) { l2 = no_proto; l3 = no_proto; l4 = no_proto };
  fg = record (s.fg) { opts = replicate max_layers no_fopt };
}

abbrev layers_of : Ctx → Option (List Bytes)
layers_of s = fgen_strtok s.frame.fstr (codes "/") (max_layers - 1)

encode_frame_lem :
    (strdup_ok : Bool) (s : Ctx)
    → encode_frame strdup_ok s
      ≡ (if strdup_ok then layers_or_fail (layers_of s) (cleared s) else failed (cleared s))
unfolding encode_frame ◌>>=◌
encode_frame_lem true s = refl
encode_frame_lem false s = refl

-- `_encode_frame` never runs out of fuel, and whether it returns 0 or -1 the frame's name, text
-- and place, the list of frames and its count, the flags and the size of the block are as before.
pub encode_frame-After :
    (strdup_ok : Bool) (s : Ctx) → After (Kept s) (Kept s) (encode_frame strdup_ok s)
encode_frame-After true s =
    rw encode_frame_lem (layers_or_fail-After (layers_of s) s (cleared s) (ground arith))
encode_frame-After false s = rw encode_frame_lem (ground arith)

abbrev Fails : {A : Type 0} → Outcome A → Type 0
Fails o = (s : Ctx) × (o ≡ failed s)

swallow-ne-failed : {A : Type 0} (o : Outcome A) → ¬ Fails (swallow o)
swallow-ne-failed (ok a s) (t, e) = cc
swallow-ne-failed (failed s) (t, e) = cc
swallow-ne-failed fault (t, e) = cc
swallow-ne-failed stuck (t, e) = cc

layers_or_fail-Fails :
    (o : Option (List Bytes)) (s : Ctx) → Fails (layers_or_fail o s) ↔ (o ≡ some [])
unfolding ◌>>=◌ set_nb_layers err_ret crash run_layers
layers_or_fail-Fails none s = (λ h. cc (h.1), λ h. cc)
layers_or_fail-Fails (some []) s = (λ h. refl, λ h. (_, refl))
layers_or_fail-Fails (some (l ∷ ls)) s = (λ h. absurd (swallow-ne-failed _ h), λ h. cc)

-- `_encode_frame` returns -1 exactly when `strdup` finds no room or the text has no layer at all:
-- a layer that is unknown or that fails is not reported.
pub encode_frame-failed_iff :
    (strdup_ok : Bool) (s : Ctx)
    → ((s' : Ctx) × (encode_frame strdup_ok s ≡ failed s'))
      ↔ ((strdup_ok ≡ false) ⊎ (fgen_strtok s.frame.fstr (codes "/") 31 ≡ some []))
encode_frame-failed_iff true s = (
  λ h. inr (iff.0 (h.0, sym (encode_frame_lem true s) ∙ h.1)),
  λ h. elim h [
    | inl e ↦ cc
    | inr e ↦ let failing = iff.1 e in (failing.0, encode_frame_lem true s ∙ failing.1)
  ],
)
  where
    iff : Fails (layers_or_fail (layers_of s) (cleared s)) ↔ (layers_of s ≡ some [])
    iff = layers_or_fail-Fails (layers_of s) (cleared s)
encode_frame-failed_iff false s = (λ h. inl refl, λ h. (cleared s, encode_frame_lem false s))
