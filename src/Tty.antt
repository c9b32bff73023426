-- ===== src/Tty.antt =====
-- lib/osal/fgen_tty.c and fgen_tty.h: the terminal that the process talks to. The bits of `flags`
-- are fields of their own, and `pause` is left out, which no function reads.
pub mod Restore
use fgen.Prelude.{
  ℕ, zero, suc, ◌+◌, Bool, true, false, ◌&&◌, ◌||◌, Option, none, some, List, [], ◌∷◌, ◌==◌,
  if◌then◌else◌, length, take,
}
use fgen.Prelude.Int.{ℤ, pos, negsuc}
use fgen.CString.{Bytes}

-- `struct termios`: the flags and the two control characters that the code changes, and the rest.
pub record Termios : Type 0 where
  pub icanon : Bool
  pub echo : Bool
  pub iexten : Bool
  pub vmin : ℕ
  pub vtime : ℕ
  pub other : ℕ

-- What `memset` makes of it.
abbrev pub zero_termios : Termios
zero_termios = record {
  icanon = false;
  echo = false;
  iexten = false;
  vmin = 0;
  vtime = 0;
  other = 0;
}

-- `fgen_tty_t`. An action is the number of a signal handler.
pub record Tty : Type 0 where
  pub is_inited : Bool
  pub is_a_tty : Bool
  pub color_on : Bool
  pub fd_out : ℕ
  pub fd_in : ℕ
  pub saved_action : ℕ
  pub winsz : Bool
  pub nrows : ℕ
  pub ncols : ℕ
  pub oldterm : Termios

abbrev pub sig_dfl : ℕ
sig_dfl = 0

abbrev pub handle_winch_action : ℕ
handle_winch_action = 1

-- What the kernel keeps: which descriptors are terminals, their settings, and the action of
-- SIGWINCH.
pub record Kernel : Type 0 where
  pub isatty : ℕ → Bool
  pub settings : ℕ → Termios
  pub winch : ℕ

pub record Session : Type 0 where
  pub tty : Tty
  pub kernel : Kernel

-- What `tcsetattr` is taken to do where it succeeds: it stores all of the settings that it is given,
-- for its descriptor alone. A system may store only a part of them.
abbrev pub tcsetattr : ℕ → Termios → Kernel → Kernel
tcsetattr fd t k = record k { settings = λ other. if other == fd then t else k.settings other }

abbrev pub raw : Termios → Termios
raw t = record t { icanon = false; echo = false; iexten = false; vmin = 1; vtime = 0 }

-- `tty_raw_input`; the Boolean says whether `tcsetattr` succeeds.
unfoldable pub tty_raw_input : Bool → Session → Session
tty_raw_input false s = s
tty_raw_input true s = record {
  tty = record (s.tty) { is_a_tty = true };
  kernel = tcsetattr s.tty.fd_in (raw s.tty.oldterm) s.kernel;
}

restored : Bool → Session → Session
restored false s = s
restored true s = record {
  tty = record (s.tty) { is_a_tty = false };
  kernel = tcsetattr s.tty.fd_in s.tty.oldterm s.kernel;
}

-- `tty_reset`.
unfoldable pub tty_reset : Bool → Session → Session
unfolding restored
tty_reset ok s = if s.tty.is_a_tty then restored ok s else s

abbrev pub fd_or : ℕ → Option ℕ → ℕ
fd_or std none = std
fd_or std (some fd) = fd

abbrev pub with_fds : Option ℕ → Option ℕ → Session → Session
with_fds fd_in fd_out s = record s {
  tty = record (s.tty) { fd_in = fd_or 0 fd_in; fd_out = fd_or 1 fd_out };
}

unfoldable pub raw_if_tty : Bool → Session → Session
unfolding tty_raw_input
raw_if_tty ok s = if s.kernel.isatty s.tty.fd_in then tty_raw_input ok s else s

-- `tty_setup` of two descriptors, of which `none` is -1: whether it returns 0, and the state then.
-- The Booleans say whether the two calls of `tcsetattr` succeed.
unfoldable pub tty_setup : Bool → Bool → Option ℕ → Option ℕ → Session → Bool × Session
unfolding tty_reset raw_if_tty
tty_setup reset_ok raw_ok fd_in fd_out s =
    if s.tty.is_inited
    then (true, raw_if_tty raw_ok (with_fds fd_in fd_out (tty_reset reset_ok s)))
    else (false, s)

-- `sigaction(SIGWINCH, …)` where it succeeds.
abbrev pub set_winch : ℕ → Session → Session
set_winch action s = record s { kernel = record (s.kernel) { winch = action } }

-- `tty_destroy`.
unfoldable pub tty_destroy : Bool → Session → Session
unfolding tty_reset
tty_destroy ok s =
    let s = tty_reset ok s in if s.tty.is_inited then set_winch s.tty.saved_action s else s

abbrev zero_tty : Tty
zero_tty = record {
  is_inited = true;
  is_a_tty = false;
  color_on = true;
  fd_out = 1;
  fd_in = 0;
  saved_action = sig_dfl;
  winsz = false;
  nrows = 0;
  ncols = 0;
  oldterm = zero_termios;
}

-- What the system answers to `__create`: whether `tcgetattr` succeeds, the window size, and
-- whether `sigaction` and `tcsetattr` succeed.
pub record Answers : Type 0 where
  pub tcgetattr : Bool
  pub window : Option (ℕ × ℕ)
  pub sigaction : Bool
  pub tcsetattr : Bool

abbrev with_size : ℕ → ℕ → Session → Session
with_size rows cols s = record s { tty = record (s.tty) { nrows = rows; ncols = cols } }

abbrev catch_winch : Session → Session
catch_winch s = record {
  tty = record (s.tty) { saved_action = s.kernel.winch };
  kernel = record (s.kernel) { winch = handle_winch_action };
}

create_sized : Answers → Session → Session
unfolding tty_raw_input tty_destroy
create_sized a s =
    if a.sigaction then tty_raw_input a.tcsetattr (catch_winch s) else tty_destroy a.tcsetattr s

create_window : Answers → Option (ℕ × ℕ) → Session → Session
unfolding create_sized tty_destroy
create_window a none s = tty_destroy a.tcsetattr s
create_window a (some (rows, cols)) s = create_sized a (with_size rows cols s)

-- `__create`, which runs before main.
unfoldable pub create : Answers → Kernel → Session
unfolding create_window tty_destroy
create a k =
    let s : Session = record { tty = zero_tty; kernel = k } in
    let kept : Session = record s { tty = record (s.tty) { oldterm = k.settings 0 } } in
    if k.isatty 0
    then (if a.tcgetattr then create_window a a.window kept else tty_destroy a.tcsetattr s)
    else s

-- `handle_winch` on SIGWINCH, with the size that `ioctl` gives.
unfoldable pub handle_winch : ℕ → ℕ → Session → Session
handle_winch rows cols s = record s {
  tty = record (s.tty) { nrows = rows; ncols = cols; winsz = true };
}

-- `tty_set_wchanged`, `tty_clear_wchanged` and `tty_did_wchange`.
unfoldable pub set_wchanged : Bool → Session → Session
set_wchanged changed s = record s { tty = record (s.tty) { winsz = changed } }

unfoldable pub tty_did_wchange : Session → Bool × Session
unfolding set_wchanged
tty_did_wchange s = (s.tty.winsz, set_wchanged false s)

-- `tty_enable_color` and `tty_disable_color`.
unfoldable pub set_color : Bool → Session → Session
set_color on s = record s { tty = record (s.tty) { color_on = on } }

-- The bytes that `tty_write` and `tty_fwrite` hand on: `len` of the buffer, or its string where
-- `len` is not positive.
unfoldable pub tty_write : Bytes → Bytes → ℤ → Bytes
tty_write buffer string (pos zero) = string
tty_write buffer string (pos (suc n)) = take (suc n) buffer
tty_write buffer string (negsuc n) = string

-- What `poll` and `read` answer to `tty_poll`: a failure, a timeout, or the events, of which it
-- tests POLLERR or POLLNVAL, POLLHUP and POLLIN, with what `tty_read` would return.
pub data Poll : Type 0 where
  poll_error : Poll
  timeout : Poll
  events : Bool → Bool → Bool → ℤ → Poll

-- `tty_poll`: what it returns.
unfoldable pub tty_poll : Poll → ℤ
tty_poll poll_error = negsuc 0
tty_poll timeout = pos 0
tty_poll (events err hup readable n) =
    if err then negsuc 0 else if hup then negsuc 0 else if readable then n else pos 0
