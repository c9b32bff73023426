-- ===== src/Encode/Stored.antt =====
-- Writing into the block of the frames, as seen from one of its places on.
use fgen.Prelude.{
  ℕ, zero, suc, ◌+◌, ◌-◌, ◌≤◌, ◌≡◌, refl, sym, ◌∙◌, ap, true, some, [], ◌∷◌, ◌++◌, leb, length,
  length-append, length-take, length-drop, take, drop, arith,
}
use fgen.CString.{Bytes}
use fgen.Encode.Machine.{Ctx, ok, M, and_then, ◌>>=◌, write_at, poke, bytes_at, gets}

-- The bytes with some of them replaced.
abbrev pub patched : Bytes → ℕ → Bytes → Bytes
patched h k bs = take k h ++ (bs ++ drop (k + length bs) h)

length-patched :
    (h : Bytes) (k : ℕ) (bs : Bytes) → k + length bs ≤ length h → length (patched h k bs) ≡ length h
length-patched h k bs room = omega (
  arith,
  length-append (take k h) (bs ++ drop (k + length bs) h),
  length-append bs (drop (k + length bs) h),
  length-take k h,
  length-drop (k + length bs) h,
)

drop-patched :
    (mem : Bytes) (base k : ℕ) (bs : Bytes)
    → base + k + length bs ≤ length mem
    → drop base (patched mem (base + k) bs) ≡ patched (drop base mem) k bs
drop-patched mem zero k bs h = let e : 0 + k ≡ k = omega arith in rw e refl
drop-patched [] (suc base) k bs h = absurd (omega arith)
drop-patched (c ∷ mem) (suc base) k bs h =
    let e : suc base + k ≡ suc (base + k) = omega arith in
    let e' : suc (base + k) + length bs ≡ suc (base + k + length bs) = omega arith in
    rw (e, e') (drop-patched mem base k bs (omega arith))

drop-drop : (mem : Bytes) (a b : ℕ) → drop (a + b) mem ≡ drop b (drop a mem)
drop-drop mem zero b = let e : 0 + b ≡ b = omega arith in rw e refl
drop-drop [] (suc a) zero = let e : suc a + 0 ≡ suc a = omega arith in rw e refl
drop-drop [] (suc a) (suc b) = let e : suc a + suc b ≡ suc (a + suc b) = omega arith in rw e refl
drop-drop (c ∷ mem) (suc a) b =
    let e : suc a + b ≡ suc (a + b) = omega arith in rw e (drop-drop mem a b)

-- What stands in the block from a place of the frame on, which lies in the block.
pub record View (s : Ctx) (off : ℕ) (h : Bytes) : Type 0 where
  pub mem : Bytes
  pub block : s.fg.salloc.ptr ≡ some mem
  pub seen : drop (s.frame.data_off + off) mem ≡ h
  pub inside : s.frame.data_off + off ≤ length mem

-- The context with another block.
abbrev pub with_block : Ctx → Bytes → Ctx
with_block s mem = record s {
  fg = record (s.fg) { salloc = record (s.fg.salloc) { ptr = some mem } };
}

pub poke-View :
    (s : Ctx) (off k : ℕ) (h bs : Bytes)
    → View s off h
    → k + length bs ≤ length h
    → (s' : Ctx) × (poke (off + k) bs s ≡ ok tt s') × View s' off (patched h k bs)
unfolding poke write_at
poke-View s off k h bs v room =
    let base = s.frame.data_off + off in
    let n : length h ≡ length v.mem - base = ap length (sym v.seen) ∙ length-drop base v.mem in
    let at : s.frame.data_off + (off + k) ≡ base + k = omega arith in
    let fits : leb (base + k + length bs) (length v.mem) ≡ true = ground (arith, v.inside) in
    let m = patched v.mem (base + k) bs in
    (
      with_block s m,
      rw (v.block, at, fits) refl,
      record {
        mem = m;
        block = refl;
        seen = drop-patched v.mem base k bs (omega (arith, v.inside)) ∙ rw v.seen refl;
        inside =
            omega (arith, v.inside, length-patched v.mem (base + k) bs (omega (arith, v.inside)));
      },
    )

pub bytes_at-View : (s : Ctx) (off : ℕ) (h : Bytes) → View s off h → bytes_at off s ≡ ok h s
unfolding bytes_at gets
bytes_at-View s off h v = rw (v.block, v.seen) refl

pub bytes_behind-View :
    (s : Ctx) (off k : ℕ) (h : Bytes) → View s off h → bytes_at (off + k) s ≡ ok (drop k h) s
unfolding bytes_at gets
bytes_behind-View s off k h v =
    let at : s.frame.data_off + (off + k) ≡ s.frame.data_off + off + k = omega arith in
    rw (v.block, at, drop-drop v.mem (s.frame.data_off + off) k, v.seen) refl

pub bind_ok :
    {A B : Type 0} (m : M A) (f : A → M B) (s : Ctx) (a : A) (s' : Ctx)
    → m s ≡ ok a s'
    → (m >>= f) s ≡ f a s'
unfolding ◌>>=◌
bind_ok m f s a s' e = ap (λ o. and_then o f) e
