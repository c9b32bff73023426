-- ===== src/Encode/Keeps/Actions.antt =====
-- The primitive actions keep the invariant; a write to the length does before the frame is sized.
use fgen.Prelude.{
  ℕ, ◌+◌, ◌≡◌, refl, Bool, true, false, Option, none, some, arith, leb, length, take, drop, ◌++◌,
  ◌∙◌, if◌then◌else◌, replicate, get_elem?, length-append, length-take, length-drop,
}
use fgen.Prelude.Int.{ℤ}
use fgen.CString.{Bytes}
use fgen.CString.Number.{strtol}
use fgen.Frame.{Fopt, max_layers}
use fgen.Encode.Machine.{
  Ctx, failed, block_write, put_block, opt_or_fail, number_or_fail, modify_frame, fbuf_data_len,
  set_data_len, add_data_len, write_at, poke, bytes_at, fill_at, lopt, set_opt_length,
  strtol_or_fail,
}
use fgen.Encode.Keeps.Rules.{After, Keeps, Inv, block_length, Keeps-pure, Leads-err_ret, Keeps-gets}

length-write_at :
    (mem : Bytes) (at : ℕ) (bs : Bytes) {mem' : Bytes}
    → write_at mem at bs ≡ some mem'
    → length mem' ≡ length mem
unfolding write_at
length-write_at mem at bs h = ground (
  arith,
  length-append (take at mem) (bs ++ drop (at + length bs) mem),
  length-append bs (drop (at + length bs) mem),
  length-take at mem,
  length-drop (at + length bs) mem,
)

length-block_write :
    (ptr : Option Bytes) (at : ℕ) (bs mem : Bytes)
    → block_write ptr at bs ≡ some mem
    → length mem ≡ elim ptr [ none ↦ 0 | some b ↦ length b ]
length-block_write none at bs mem e = cc
length-block_write (some b) at bs mem e = length-write_at b at bs e

module _ {sized : Bool} {s₀ : Ctx} where
  pub Keeps-fbuf_data_len : Keeps (Inv sized s₀) fbuf_data_len
  unfolding fbuf_data_len
  Keeps-fbuf_data_len = Keeps-gets (λ s. s.frame.data_len)

  put_block-Inv :
      (s : Ctx) (o : Option Bytes)
      → Inv sized s₀ s
      → ((mem : Bytes) → o ≡ some mem → length mem ≡ block_length s)
      → After (Inv sized s₀) (Inv sized s₀) (put_block s o)
  put_block-Inv s none h e = tt
  put_block-Inv s (some mem) h e = record {
    name = h.name;
    fstr = h.fstr;
    data_off = h.data_off;
    head = h.head;
    nb_frames = h.nb_frames;
    flags = h.flags;
    nb_layers = h.nb_layers;
    room = e mem refl ∙ h.room;
    in_range = h.in_range;
  }

  pub Keeps-poke : (off : ℕ) (bs : Bytes) → Keeps (Inv sized s₀) (poke off bs)
  unfolding poke
  Keeps-poke off bs = record {
    at = λ s h.
        put_block-Inv s (block_write s.fg.salloc.ptr (s.frame.data_off + off) bs) h
          (length-block_write s.fg.salloc.ptr (s.frame.data_off + off) bs);
  }

  pub Keeps-fill_at : (off c n : ℕ) → Keeps (Inv sized s₀) (fill_at off c n)
  unfolding fill_at
  Keeps-fill_at off c n = Keeps-poke off (replicate n c)

  pub Keeps-bytes_at : (off : ℕ) → Keeps (Inv sized s₀) (bytes_at off)
  unfolding bytes_at
  Keeps-bytes_at off = Keeps-gets _

  opt_or_fail-Inv :
      (s : Ctx) (o : Option Fopt)
      → Inv sized s₀ s
      → After (Inv sized s₀) (Inv sized s₀) (opt_or_fail s o)
  opt_or_fail-Inv s none h = tt
  opt_or_fail-Inv s (some o) h = h

  pub Keeps-lopt : (lidx : ℕ) → Keeps (Inv sized s₀) (lopt lidx)
  unfolding lopt
  Keeps-lopt lidx = record {
    at = λ s h.
        elim (leb max_layers lidx)
          as (λ b.
            After (Inv sized s₀) (Inv sized s₀)
              (if b then failed s else opt_or_fail s (get_elem? s.fg.opts lidx))) [
                | true ↦ h
                | false ↦ opt_or_fail-Inv s (get_elem? s.fg.opts lidx) h
              ];
  }

  pub Keeps-set_opt_length : (lidx n : ℕ) → Keeps (Inv sized s₀) (set_opt_length lidx n)
  unfolding set_opt_length
  Keeps-set_opt_length lidx n = record { at = λ s h. ground arith }

  Keeps-number_or_fail : (o : Option ℤ) → Keeps (Inv sized s₀) (number_or_fail o)
  Keeps-number_or_fail none = Leads-err_ret
  Keeps-number_or_fail (some z) = Keeps-pure z

  pub Keeps-strtol_or_fail : (v : Bytes) → Keeps (Inv sized s₀) (strtol_or_fail v)
  unfolding strtol_or_fail
  Keeps-strtol_or_fail v = Keeps-number_or_fail (strtol v)

module _ {s₀ : Ctx} where
  pub Keeps-add_data_len : (n : ℕ) → Keeps (Inv false s₀) (add_data_len n)
  unfolding add_data_len
  Keeps-add_data_len n = record { at = λ s h. ground arith }

  pub Keeps-set_data_len : (n : ℕ) → Keeps (Inv false s₀) (set_data_len n)
  unfolding set_data_len
  Keeps-set_data_len n = record { at = λ s h. ground arith }

  pub Keeps-set_tsc_off :
      Keeps (Inv false s₀) (modify_frame (λ f. record f { tsc_off = f.data_len }))
  unfolding modify_frame
  Keeps-set_tsc_off = record { at = λ s h. ground arith }

  -- Before the frame is sized the invariant asks less.
  pub Inv-unsized : (s : Ctx) → Inv true s₀ s → Inv false s₀ s
  Inv-unsized s h = ground arith
