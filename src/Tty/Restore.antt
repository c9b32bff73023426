-- ===== src/Tty/Restore.antt =====
-- The terminals get their settings back.
use fgen.Prelude.{ℕ, ◌≡◌, Bool, true, false, Option, List, [], ◌∷◌, ◌==◌}
use fgen.Tty.{
  Kernel, Session, tty_setup, fd_or, tty_destroy, handle_winch, set_wchanged, tty_did_wchange,
  set_color,
}

-- A call that changes the session, or the signal.
pub data Call : Type 0 where
  setup : Option ℕ → Option ℕ → Call
  destroy : Call
  winch : ℕ → ℕ → Call
  mark : Bool → Call
  did_wchange : Call
  color : Bool → Call

-- The session after a call in which `tcsetattr` does not fail.
unfoldable pub after : Call → Session → Session
unfolding tty_setup tty_destroy handle_winch set_wchanged tty_did_wchange set_color
after (setup fd_in fd_out) s = (tty_setup true true fd_in fd_out s).1
after destroy s = tty_destroy true s
after (winch rows cols) s = handle_winch rows cols s
after (mark changed) s = set_wchanged changed s
after did_wchange s = (tty_did_wchange s).1
after (color on) s = set_color on s

unfoldable pub after_all : List Call → Session → Session
unfolding after
after_all [] s = s
after_all (c ∷ cs) s = after_all cs (after c s)

-- A descriptor for input that starts with the settings of descriptor 0.
abbrev pub Alike : Kernel → Call → Type 0
Alike k (setup fd_in fd_out) = k.settings (fd_or 0 fd_in) ≡ k.settings 0
Alike k _ = Unit

module _ (k : Kernel) where
  -- Only the terminal that is read is in raw mode, and what it had before is kept.
  record Kept (s : Session) : Type 0 where
    inited : s.tty.is_inited ≡ true
    old : s.tty.oldterm ≡ k.settings 0
    saved : s.tty.saved_action ≡ k.winch
    alike : s.tty.is_a_tty ≡ true → k.settings s.tty.fd_in ≡ k.settings 0
    others : (fd : ℕ) → (fd == s.tty.fd_in) ≡ false → s.kernel.settings fd ≡ k.settings fd
    idle : s.tty.is_a_tty ≡ false → (fd : ℕ) → s.kernel.settings fd ≡ k.settings fd

  -- Every terminal has the settings that it had before.
  record Clean (s : Session) : Type 0 where
    inited : s.tty.is_inited ≡ true
    old : s.tty.oldterm ≡ k.settings 0
    saved : s.tty.saved_action ≡ k.winch
    cooked : s.tty.is_a_tty ≡ false
    same : (fd : ℕ) → s.kernel.settings fd ≡ k.settings fd
