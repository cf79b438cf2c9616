-- ===== src/Ftx/Message/Grid/Spelling.antt =====
-- About the text of a third field.
use trx_rs.Common.{
  ℕ, suc, ◌+◌, ◌/◌, ◌%◌, ◌^◌, ◌<◌, ◌≤◌, true, false, List, length, ◌≡◌, refl, arith,
}
use trx_rs.Ftx.Decimal.{ℤ, pos, negsuc, int_to_dd}
use trx_rs.Ftx.Message.Places.{is_space}
use trx_rs.Ftx.Message.Places.RoundTrip.{NoSpaces}
use trx_rs.Ftx.Message.Grid.Sent.{
  Extra, nothing, roger, roger_73, best_regards, locator, report, roger_report, spell, IsReport,
  IsSendable,
}

-- a short text without a space
abbrev IsToken : ℕ → List ℕ → Type 0
IsToken k s = NoSpaces s × (length s ≤ k)

digit_is_no_space : (d : ℕ) → d < 10 → is_space ((b'0' + d % 2 ^ 8) % 2 ^ 8) ≡ false
digit_is_no_space d h = ground arith

report-IsToken : (dd : ℤ) → IsReport dd → IsToken 3 (int_to_dd dd 2 true)
unfolding int_to_dd
report-IsToken (pos n) v = (
  (refl, (digit_is_no_space (n / 10) (omega arith), (digit_is_no_space _ (omega arith), tt))),
  omega arith,
)
report-IsToken (negsuc n) v = (
  (refl, (digit_is_no_space (suc n / 10) (omega arith), (digit_is_no_space _ (omega arith), tt))),
  omega arith,
)

pub spell-IsToken : (e : Extra) → IsSendable e → NoSpaces (spell e) × (length (spell e) ≤ 19)
unfolding spell
spell-IsToken nothing v = (tt, omega arith)
spell-IsToken roger v = ((refl, (refl, (refl, tt))), omega arith)
spell-IsToken roger_73 v = ((refl, (refl, (refl, (refl, tt)))), omega arith)
spell-IsToken best_regards v = ((refl, (refl, tt)), omega arith)
spell-IsToken (locator a b c d) v =
    ((ground arith, (ground arith, (ground arith, (ground arith, tt)))), omega arith)
spell-IsToken (report dd) v = let r = report-IsToken dd v in (r.0, omega (arith, r.1))
spell-IsToken (roger_report dd) v = let r = report-IsToken dd v in ((refl, r.0), omega (arith, r.1))
