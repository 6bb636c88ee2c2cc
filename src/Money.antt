-- ===== src/Money.antt =====
-- src/common/utils/money.util.ts. Amounts are exact decimals, as integers that count the smallest
-- place in use. Sums, differences and comparisons of decimals are those of the integers; what
-- rounds is a function of the decimal library and a parameter here.
pub mod Rounding
use fin_matrix_backend.Prelude.{ℕ, ◌+◌, ◌<◌, ◌==◌, ◌≡◌, Bool, Option, none, some}
use fin_matrix_backend.Prelude.Int.{ℤ, pos, ◌+ℤ◌, ◌-ℤ◌, ◌≤ℤ◌, leb_ℤ, ltb_ℤ, abs, pos_part, neg_part}

-- `toFixed(4)` of decimal.js, which the stored columns go through. `unit` is one ten-thousandth,
-- and a value is money when rounding leaves it alone.
pub record Decimals : Type 0 where
  pub unit : ℕ
  pub unit_pos : 0 < unit
  pub to_fixed : ℤ → ℤ
  -- Rounding twice is rounding once.
  pub to_fixed_idem : (x : ℤ) → to_fixed (to_fixed x) ≡ to_fixed x
  -- Values of at most four places are closed under sums and differences.
  pub fixed_zero : to_fixed (pos 0) ≡ pos 0
  pub fixed_add : (x y : ℤ) → to_fixed x ≡ x → to_fixed y ≡ y → to_fixed (x +ℤ y) ≡ x +ℤ y
  pub fixed_sub : (x y : ℤ) → to_fixed x ≡ x → to_fixed y ≡ y → to_fixed (x -ℤ y) ≡ x -ℤ y
  pub fixed_unit : to_fixed (pos unit) ≡ pos unit
  -- Two different values of at most four places are a unit apart.
  pub fixed_apart :
      (x y : ℤ) → to_fixed x ≡ x → to_fixed y ≡ y → x +ℤ pos 1 ≤ℤ y → x +ℤ pos unit ≤ℤ y
  -- Rounding keeps the order.
  pub to_fixed_mono : (x y : ℤ) → x ≤ℤ y → to_fixed x ≤ℤ to_fixed y

-- Products and hundredths of decimals. The library rounds them to its precision, which keeps order
-- and sign.
pub record Products : Type 0 where
  pub times : ℤ → ℤ → ℤ
  pub divided_by_100 : ℤ → ℤ
  pub times_mono : (x y z : ℤ) → pos 0 ≤ℤ z → x ≤ℤ y → times x z ≤ℤ times y z
  pub times_zero : (z : ℤ) → times (pos 0) z ≡ pos 0
  pub divided_by_100_mono : (x y : ℤ) → x ≤ℤ y → divided_by_100 x ≤ℤ divided_by_100 y
  pub divided_by_100_zero : divided_by_100 (pos 0) ≡ pos 0

-- A missing value counts as zero.
abbrev pub to_decimal : Option ℤ → ℤ
to_decimal none = pos 0
to_decimal (some x) = x

module _ (lib : Decimals) where
  open lib use {unit, to_fixed}

  -- A value that `decimal(18,4)` holds as it is.
  abbrev pub IsMoney : ℤ → Type 0
  IsMoney x = to_fixed x ≡ x

  -- MONEY_TOLERANCE, 0.0001.
  abbrev pub money_tolerance : ℤ
  money_tolerance = pos unit

  -- `moneyEquals` at its default tolerance.
  abbrev pub money_equals : ℤ → ℤ → Bool
  money_equals a b = leb_ℤ (abs (a -ℤ b)) money_tolerance

abbrev pub is_positive : ℤ → Bool
is_positive x = ltb_ℤ (pos 0) x

abbrev pub add_money : ℤ → ℤ → ℤ
add_money a b = a +ℤ b

abbrev pub is_zero : ℤ → Bool
is_zero x = pos_part x + neg_part x == 0
