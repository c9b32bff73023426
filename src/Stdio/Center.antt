-- ===== src/Stdio/Center.antt =====
-- Where `fgen_cprintf` puts its text.
use fgen.Prelude.{ℕ, ◌-◌, ◌/◌, ◌^◌, ◌<◌, ◌≡◌, ltb, if◌then◌else◌, arith}
use fgen.Stdio.{vt_center_col}

-- On a line of fewer than 2 ^ 15 columns, and for a message shorter than 2 ^ 16 bytes, the
-- casts of `vt_center_col` lose nothing: the column is the difference of the two halves, or 1
-- where the half of the message is not below the half of the line.
pub vt_center_col-halves :
    (ncols len : ℕ)
    → ncols < 2 ^ 15
    → len < 2 ^ 16
    → vt_center_col ncols len ≡ (if ltb (len / 2) (ncols / 2) then ncols / 2 - len / 2 else 1)
unfolding vt_center_col
vt_center_col-halves ncols len h k = ground arith
