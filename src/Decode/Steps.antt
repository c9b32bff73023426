-- ===== src/Decode/Steps.antt =====
-- What an action of the decoder leads to: the rules for each primitive action.
use fgen.Prelude.{
  ℕ, ◌+◌, ◌*◌, ◌≤◌, ◌<◌, ◌≡◌, ◌∙◌, ap, sym, Bool, true, false, Option, none, some, leb,
  if◌then◌else◌, length, arith, subst, Bool-cases, inl, inr,
}
use fgen.CString.{Bytes}
use fgen.Decode.{
  Dc, Answer, done, failed, fault, stuck, Act, and_then, ◌⨾◌, say, skip, with_header, with_bytes_at,
  return_error, return_ok, on_bytes, read_at,
}
use fgen.Decode.Buffer.{Fits, append-Appended}

-- The answer is 0 or -1 with a text that fits its buffer, or a read past the data.
abbrev pub Ends : Answer → Type 0
Ends (done dc) = Fits dc.buffer dc.buf_len dc.used
Ends (failed dc) = Fits dc.buffer dc.buf_len dc.used
Ends fault = Unit {0}
Ends stuck = ⊥

-- The decoder reads `mem`, with a text that fits, at an offset that satisfies `O`.
pub record At (mem : Bytes) (O : ℕ → Type 0) (dc : Dc) : Type 0 where
  pub fits : Fits dc.buffer dc.buf_len dc.used
  pub same : dc.frame_data ≡ mem
  pub offset : O dc.data_off

abbrev pub Leads : Bytes → (ℕ → Type 0) → Answer → Type 0
Leads mem O (done dc) = At mem O dc
Leads mem O (failed dc) = Fits dc.buffer dc.buf_len dc.used
Leads mem O fault = Unit {0}
Leads mem O stuck = ⊥

-- From O, the action goes on in Q, returns -1, or reads past the data.
pub record Steps (mem : Bytes) (O Q : ℕ → Type 0) (a : Act) : Type 0 where
  pub at : (dc : Dc) → At mem O dc → Leads mem Q (a dc)

abbrev pub Anywhere : ℕ → Type 0
Anywhere off = Unit

pub Leads-on_bytes :
    (mem : Bytes) (Q : ℕ → Type 0) (dc : Dc) (k : Bytes → Act) (o : Option Bytes)
    → ((h : Bytes) → Leads mem Q (k h dc))
    → Leads mem Q (on_bytes dc k o)
Leads-on_bytes mem Q dc k none f = tt
Leads-on_bytes mem Q dc k (some h) f = f h

module _ {mem : Bytes} where
  pub Leads-and_then :
      {Q R : ℕ → Type 0} (r : Answer) (b : Act)
      → Leads mem Q r
      → Steps mem Q R b
      → Leads mem R (and_then r b)
  Leads-and_then (done dc) b h k = k.at dc h
  Leads-and_then (failed dc) b h k = h
  Leads-and_then fault b h k = tt
  Leads-and_then stuck b h k = absurd h

  pub Steps-seq :
      {O Q R : ℕ → Type 0} (a b : Act) → Steps mem O Q a → Steps mem Q R b → Steps mem O R (a ⨾ b)
  unfolding ◌⨾◌
  Steps-seq a b h k = record { at = λ dc p. Leads-and_then (a dc) b (h.at dc p) k }

  pub Keep-seq :
      {O : ℕ → Type 0} (a b : Act) → Steps mem O O a → Steps mem O O b → Steps mem O O (a ⨾ b)
  Keep-seq a b h k = Steps-seq a b h k

  pub Steps-say : {O : ℕ → Type 0} (room : ℕ → Bool) (text : Bytes) → Steps mem O O (say room text)
  unfolding say
  Steps-say {O} room text = record {
    at = λ dc p.
        let r = append-Appended room text dc p.fits in
        record {
          fits = r.fits;
          same = r.same.frame_data ∙ p.same;
          offset = subst O (sym r.same.data_off) p.offset;
        };
  }

  pub Steps-skip : (n : ℕ) → Steps mem Anywhere Anywhere (skip n)
  unfolding skip
  Steps-skip n = record { at = λ dc p. record { fits = p.fits; same = p.same; offset = tt } }

  pub Steps-return_ok : {O : ℕ → Type 0} → Steps mem O O return_ok
  unfolding return_ok
  Steps-return_ok = record { at = λ dc p. p }

  pub Steps-return_error : {O Q : ℕ → Type 0} → Steps mem O Q return_error
  unfolding return_error
  Steps-return_error = record { at = λ dc p. p.fits }

  pub Steps-if :
      {O Q : ℕ → Type 0} (c : Bool) (a b : Act)
      → Steps mem O Q a
      → Steps mem O Q b
      → Steps mem O Q (if c then a else b)
  Steps-if true a b h k = h
  Steps-if false a b h k = k

  pub Steps-with_bytes_at :
      {O Q : ℕ → Type 0} (off n : ℕ) (k : Bytes → Act)
      → ((h : Bytes) → Steps mem O Q (k h))
      → Steps mem O Q (with_bytes_at off n k)
  unfolding with_bytes_at
  Steps-with_bytes_at off n k f = record {
    at = λ dc p. Leads-on_bytes _ _ dc k (read_at dc.frame_data off n) (λ h. (f h).at dc p);
  }

  pub Steps-with_header :
      {O Q : ℕ → Type 0} (n : ℕ) (k : Bytes → Act)
      → ((h : Bytes) → Steps mem O Q (k h))
      → Steps mem O Q (with_header n k)
  unfolding with_header with_bytes_at
  Steps-with_header n k f = record {
    at = λ dc p. Leads-on_bytes _ _ dc k (read_at dc.frame_data dc.data_off n) (λ h. (f h).at dc p);
  }

pub ruleset step_rules = (
  Keep-seq, Steps-say, Steps-skip, Steps-return_ok, Steps-return_error, Steps-if, Steps-with_header,
)

abbrev pub Goes : Bytes → Act → Type 0
Goes mem a = Steps mem Anywhere Anywhere a

-- The offset is in the data, and the fuel is enough for the tags behind it.
abbrev pub Near : ℕ → ℕ → ℕ → Type 0
Near len fuel off = (off ≤ len) × (len < off + 4 * fuel)

module _ {mem : Bytes} where
  pub Steps-Anywhere : {O : ℕ → Type 0} (a : Act) → Goes mem a → Steps mem O Anywhere a
  Steps-Anywhere a h = record {
    at = λ dc p. h.at dc (record { fits = p.fits; same = p.same; offset = tt });
  }

  -- Bytes that can be read end inside the data.
  pub bytes_at-Leads :
      (Q : ℕ → Type 0) (off n : ℕ) (k : Bytes → Act) (dc : Dc)
      → dc.frame_data ≡ mem
      → ((h : Bytes) → off + n ≤ length mem → Leads mem Q (k h dc))
      → Leads mem Q (with_bytes_at off n k dc)
  unfolding with_bytes_at
  bytes_at-Leads Q off n k dc same f = elim (Bool-cases (leb (off + n) (length dc.frame_data))) [
    | inl fits ↦ rw fits (f _ (ground (arith, ap length same)))
    | inr past ↦ rw past tt
  ]

  pub header-Leads :
      (Q : ℕ → Type 0) (n : ℕ) (k : Bytes → Act) (dc : Dc)
      → dc.frame_data ≡ mem
      → ((h : Bytes) → dc.data_off + n ≤ length mem → Leads mem Q (k h dc))
      → Leads mem Q (with_header n k dc)
  unfolding with_header
  header-Leads Q n k dc same f = bytes_at-Leads Q dc.data_off n k dc same f
