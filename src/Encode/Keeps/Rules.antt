-- ===== src/Encode/Keeps/Rules.antt =====
-- What an action leads to: a condition after success, one after -1, and never a lack of fuel.
use fgen.Prelude.{
  ℕ, ◌≤◌, ◌≡◌, Bool, true, false, Option, none, some, ◌∙◌, if◌then◌else◌, length, arith,
}
use fgen.Encode.Machine.{
  Ctx, Outcome, ok, failed, fault, stuck, M, and_then, ◌>>=◌, pure, err_ret, crash, gets, of_option,
}

-- `P` after -1, `Q` after success, and never a lack of fuel.
abbrev pub After : {A : Type 0} → (Ctx → Type 0) → (Ctx → Type 0) → Outcome A → Type 0
After P Q (ok a s) = Q s
After P Q (failed s) = P s
After P Q fault = Unit {0}
After P Q stuck = ⊥

-- From `P`, the action leads to `Q`, or fails in `P`.
pub record Leads {A : Type 0} (P Q : Ctx → Type 0) (m : M A) : Type 0 where
  pub at : (s : Ctx) → P s → After P Q (m s)

abbrev pub Keeps : {A : Type 0} → (Ctx → Type 0) → M A → Type 0
Keeps P m = Leads P P m

After-and_then :
    {A B : Type 0} (P Q : Ctx → Type 0) {R : Ctx → Type 0} (o : Outcome A) (f : A → M B)
    → After P R o
    → ((a : A) (s : Ctx) → R s → After P Q (f a s))
    → After P Q (and_then o f)
After-and_then P Q (ok a s) f h k = k a s h
After-and_then P Q (failed s) f h k = h
After-and_then P Q fault f h k = tt
After-and_then P Q stuck f h k = absurd h

After-weaken :
    {A : Type 0} (Q : Ctx → Type 0) {P R : Ctx → Type 0} (o : Outcome A)
    → ((s : Ctx) → R s → P s)
    → After R Q o
    → After P Q o
After-weaken Q (ok a s) w h = h
After-weaken Q (failed s) w h = w s h
After-weaken Q fault w h = tt
After-weaken Q stuck w h = h

module _ {A B : Type 0} {P Q : Ctx → Type 0} where
  -- A first part that keeps `P`.
  pub Leads-bind :
      (m : M A) (f : A → M B) → Keeps P m → ((a : A) → Leads P Q (f a)) → Leads P Q (m >>= f)
  unfolding ◌>>=◌
  Leads-bind m f km kf = record {
    at = λ s h. After-and_then P Q (m s) f (km.at s h) (λ a s' h'. (kf a).at s' h');
  }

  -- A first part that leads to `Q`, which the rest keeps.
  pub Leads-bind_then :
      (m : M A) (f : A → M B)
      → ((s : Ctx) → Q s → P s)
      → Leads P Q m
      → ((a : A) → Keeps Q (f a))
      → Leads P Q (m >>= f)
  unfolding ◌>>=◌
  Leads-bind_then m f w km kf = record {
    at = λ s h.
        After-and_then P Q (m s) f (km.at s h)
          (λ a s' h'. After-weaken Q (f a s') w ((kf a).at s' h'));
  }

module _ {A : Type 0} {P : Ctx → Type 0} where
  pub Keeps-pure : (a : A) → Keeps P (pure a)
  unfolding pure
  Keeps-pure a = record { at = λ s h. h }

  pub Leads-err_ret : {Q : Ctx → Type 0} → Leads {A = A} P Q err_ret
  unfolding err_ret
  Leads-err_ret = record { at = λ s h. h }

  pub Leads-crash : {Q : Ctx → Type 0} → Leads {A = A} P Q crash
  unfolding crash
  Leads-crash = record { at = λ s h. tt }

  pub Keeps-gets : (f : Ctx → A) → Keeps P (gets f)
  unfolding gets
  Keeps-gets f = record { at = λ s h. h }

  pub Keeps-of_option : (o : Option A) → Keeps P (of_option o)
  unfolding of_option
  Keeps-of_option none = record { at = λ s h. tt }
  Keeps-of_option (some a) = record { at = λ s h. h }

  pub Leads-if :
      {Q : Ctx → Type 0} (b : Bool) (m n : M A)
      → Leads P Q m
      → Leads P Q n
      → Leads P Q (if b then m else n)
  Leads-if true m n km kn = km
  Leads-if false m n km kn = kn

abbrev pub block_length : Ctx → ℕ
block_length s = elim s.fg.salloc.ptr [ none ↦ 0 | some b ↦ length b ]

-- What no layer changes: the frame's name, text and place, the list of frames, the number of
-- layers, and the room in the block. Once the frame is sized, its length is that of an Ethernet
-- frame.
pub record Inv (sized : Bool) (s₀ s : Ctx) : Type 0 where
  pub name : s.frame.name ≡ s₀.frame.name
  pub fstr : s.frame.fstr ≡ s₀.frame.fstr
  pub data_off : s.frame.data_off ≡ s₀.frame.data_off
  pub head : s.fg.head ≡ s₀.fg.head
  pub nb_frames : s.fg.nb_frames ≡ s₀.fg.nb_frames
  pub flags : s.fg.flags ≡ s₀.fg.flags
  pub nb_layers : s.fg.nb_layers ≡ s₀.fg.nb_layers
  pub room : block_length s ≡ block_length s₀
  pub in_range : sized ≡ true → (60 ≤ s.frame.data_len) × (s.frame.data_len ≤ 1514)

pub Inv-refl : (s : Ctx) → Inv false s s
Inv-refl s = ground arith

-- What `_encode_frame` as a whole leaves as it was.
pub record Kept (s₀ s : Ctx) : Type 0 where
  pub name : s.frame.name ≡ s₀.frame.name
  pub fstr : s.frame.fstr ≡ s₀.frame.fstr
  pub data_off : s.frame.data_off ≡ s₀.frame.data_off
  pub head : s.fg.head ≡ s₀.fg.head
  pub nb_frames : s.fg.nb_frames ≡ s₀.fg.nb_frames
  pub flags : s.fg.flags ≡ s₀.fg.flags
  pub room : block_length s ≡ block_length s₀

pub Inv-Kept : {sized : Bool} {s₀ s₁ s : Ctx} → Kept s₀ s₁ → Inv sized s₁ s → Kept s₀ s
Inv-Kept k h = record {
  name = h.name ∙ k.name;
  fstr = h.fstr ∙ k.fstr;
  data_off = h.data_off ∙ k.data_off;
  head = h.head ∙ k.head;
  nb_frames = h.nb_frames ∙ k.nb_frames;
  flags = h.flags ∙ k.flags;
  room = h.room ∙ k.room;
}
