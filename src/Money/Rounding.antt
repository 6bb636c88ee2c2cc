-- ===== src/Money/Rounding.antt =====
-- A rounding that meets what the components rely on: half up, away from zero, of values that are
-- counted in eighth decimal places.
use native.Mathlib.Nat.{mul-le-mul_right}
use fin_matrix_backend.Prelude.{ℕ, suc, ◌+◌, ◌-◌, ◌*◌, ◌/◌, ◌<◌, ◌≤◌, ◌≡◌, refl, ap, arith}
use fin_matrix_backend.Prelude.Int.{
  ℤ, pos, negsuc, ◌+ℤ◌, ◌-ℤ◌, ◌*ℤ◌, ◌≤ℤ◌, sub_ℕ, pos_part, neg_part, int_laws,
}
use fin_matrix_backend.Money.{Decimals, Products}

abbrev round_abs : ℕ → ℕ
round_abs n = (n + 5000) / 10000 * 10000

unfoldable pub half_up : ℤ → ℤ
half_up (pos n) = pos (round_abs n)
half_up (negsuc n) = sub_ℕ 0 (round_abs (suc n))

half_up_parts :
    (x : ℤ)
    → (pos_part (half_up x) ≡ round_abs (pos_part x))
      × (neg_part (half_up x) ≡ round_abs (neg_part x))
unfolding half_up
half_up_parts (pos n) = (refl, ground arith)
half_up_parts (negsuc n) = (ground arith, ground arith)

abbrev IsWhole : ℕ → Type 0
IsWhole n = round_abs n ≡ n

half_up-fixed_parts : (x : ℤ) → half_up x ≡ x → IsWhole (pos_part x) × IsWhole (neg_part x)
half_up-fixed_parts x e =
    let (p, n) = half_up_parts x in (rw (← p) (ap pos_part e), rw (← n) (ap neg_part e))

half_up_of_parts : (x : ℤ) → IsWhole (pos_part x) → IsWhole (neg_part x) → half_up x ≡ x
unfolding half_up
half_up_of_parts (pos n) p q = ap pos p
half_up_of_parts (negsuc n) p q = ground arith

pub half_up_idem : (x : ℤ) → half_up (half_up x) ≡ half_up x
half_up_idem x =
    let (p, n) = half_up_parts x in
    half_up_of_parts (half_up x) (rw p (omega arith)) (rw n (omega arith))

sub_ℕ_parts : (a b : ℕ) → (pos_part (sub_ℕ a b) ≡ a - b) × (neg_part (sub_ℕ a b) ≡ b - a)
sub_ℕ_parts a b = ground arith

IsWhole-sub :
    (a b c d : ℕ) → IsWhole a → IsWhole b → IsWhole c → IsWhole d → IsWhole (a + b - (c + d))
IsWhole-sub a b c d ha hb hc hd = omega arith

pub half_up_add : (x y : ℤ) → half_up x ≡ x → half_up y ≡ y → half_up (x +ℤ y) ≡ x +ℤ y
unfolding ◌+ℤ◌
half_up_add x y p q =
    let (px, nx) = half_up-fixed_parts x p in
    let (py, ny) = half_up-fixed_parts y q in
    let (sp, sn) = sub_ℕ_parts (pos_part x + pos_part y) (neg_part x + neg_part y) in
    half_up_of_parts (x +ℤ y) (rw sp (IsWhole-sub _ _ _ _ px py nx ny))
      (rw sn (IsWhole-sub _ _ _ _ nx ny px py))

pub half_up_sub : (x y : ℤ) → half_up x ≡ x → half_up y ≡ y → half_up (x -ℤ y) ≡ x -ℤ y
unfolding ◌-ℤ◌
half_up_sub x y p q =
    let (px, nx) = half_up-fixed_parts x p in
    let (py, ny) = half_up-fixed_parts y q in
    let (sp, sn) = sub_ℕ_parts (pos_part x + neg_part y) (neg_part x + pos_part y) in
    half_up_of_parts (x -ℤ y) (rw sp (IsWhole-sub _ _ _ _ px ny nx py))
      (rw sn (IsWhole-sub _ _ _ _ nx py px ny))

pub half_up_apart :
    (x y : ℤ) → half_up x ≡ x → half_up y ≡ y → x +ℤ pos 1 ≤ℤ y → x +ℤ pos 10000 ≤ℤ y
half_up_apart x y p q h = omega (int_laws, half_up-fixed_parts x p, half_up-fixed_parts y q)

pub half_up_mono : (x y : ℤ) → x ≤ℤ y → half_up x ≤ℤ half_up y
half_up_mono (pos n) (pos m) h = omega (arith, half_up_parts (pos n), half_up_parts (pos m))
half_up_mono (pos n) (negsuc m) h = absurd (omega arith)
half_up_mono (negsuc n) (pos m) h = omega (arith, half_up_parts (negsuc n), half_up_parts (pos m))
half_up_mono (negsuc n) (negsuc m) h =
    omega (arith, half_up_parts (negsuc n), half_up_parts (negsuc m))

pub half_up_zero : half_up (pos 0) ≡ pos 0
unfolding half_up
half_up_zero = refl

pub half_up_unit : half_up (pos 10000) ≡ pos 10000
unfolding half_up
half_up_unit = refl

pub ten_thousand_pos : 0 < 10000
ten_thousand_pos = omega arith

-- decimal.js at ROUND_HALF_UP, its default.
abbrev pub eight_places : Decimals
eight_places = record {
  unit = 10000;
  unit_pos = ten_thousand_pos;
  to_fixed = half_up;
  to_fixed_idem = half_up_idem;
  fixed_zero = half_up_zero;
  fixed_add = half_up_add;
  fixed_sub = half_up_sub;
  fixed_unit = half_up_unit;
  fixed_apart = half_up_apart;
  to_fixed_mono = half_up_mono;
}

-- Products of whole quantities and whole amounts, and hundredths cut off towards zero.
abbrev pub hundredth : ℤ → ℤ
hundredth (pos n) = pos (n / 100)
hundredth (negsuc n) = sub_ℕ 0 (suc n / 100)

pub hundredth_mono : (x y : ℤ) → x ≤ℤ y → hundredth x ≤ℤ hundredth y
hundredth_mono (pos n) (pos m) h = omega arith
hundredth_mono (pos n) (negsuc m) h = absurd (omega arith)
hundredth_mono (negsuc n) (pos m) h = ground arith
hundredth_mono (negsuc n) (negsuc m) h = ground arith

pub times_mono : (x y z : ℤ) → pos 0 ≤ℤ z → x ≤ℤ y → x *ℤ z ≤ℤ y *ℤ z
unfolding ◌*ℤ◌
times_mono x y (negsuc n) sign h = absurd (omega arith)
times_mono (pos a) (pos b) (pos n) sign h =
    let larger : a * n ≤ b * n = mul-le-mul_right n (omega arith) in ground (arith, larger)
times_mono (pos a) (negsuc b) (pos n) sign h = absurd (omega arith)
times_mono (negsuc a) (pos b) (pos n) sign h = ground arith
times_mono (negsuc a) (negsuc b) (pos n) sign h =
    let larger : suc b * n ≤ suc a * n = mul-le-mul_right n (omega arith) in ground (arith, larger)

pub times_zero : (z : ℤ) → pos 0 *ℤ z ≡ pos 0
unfolding ◌*ℤ◌
times_zero z = ground arith

abbrev pub whole_products : Products
whole_products = record {
  times = λ x z. x *ℤ z;
  divided_by_100 = hundredth;
  times_mono = times_mono;
  times_zero = times_zero;
  divided_by_100_mono = hundredth_mono;
  divided_by_100_zero = refl;
}
