-- ===== src/CompanyStatus/Access.antt =====
-- When a company lets its users in.
use fin_matrix_backend.Prelude.{◌≡◌, refl, Bool, true, false, ◌&&◌}

and_false : (b : Bool) → (b && false) ≡ false
and_false true = refl
and_false false = refl

and_true : (b : Bool) → (b && true) ≡ b
and_true true = refl
and_true false = refl
