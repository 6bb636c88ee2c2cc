-- ===== src/Prelude/Keys.antt =====
-- Rows of a table with a primary key, found by it and one more condition.
use fin_matrix_backend.Prelude.{
  ℕ, ◌≡◌, refl, sym, ap, ◌∙◌, Bool, true, false, ◌&&◌, none, some, List, [], ◌∷◌, find, All,
  Bool-cases, inl, inr, ◌⊎◌, ◌==◌, ==→eq, eq_of_some,
}

module _ {A : Type 0} (key : A → ℕ) where
  abbrev pub IsOther : ℕ → A → Type 0
  IsOther id x = (key x == id) ≡ false

  abbrev pub HasUniqueKeys : List A → Type 0
  HasUniqueKeys [] = Unit
  HasUniqueKeys (x ∷ xs) = All (IsOther (key x)) xs × HasUniqueKeys xs

  module _ (q : A → Bool) (id : ℕ) where
    abbrev pub is_row : A → Bool
    is_row x = (key x == id) && q x

    pub find_absent : (xs : List A) → All (IsOther id) xs → find is_row xs ≡ none
    find_absent [] h = refl
    find_absent (x ∷ xs) (h, hs) = rw h (find_absent xs hs)

    -- The row that is found stands once in the table: it is the head, or it is in the tail.
    pub found_cases :
        (x : A) (xs : List A) (y : A)
        → HasUniqueKeys (x ∷ xs)
        → find is_row (x ∷ xs) ≡ some y
        → ((x ≡ y) × (key x ≡ id) × All (IsOther id) xs)
          ⊎ (((key x == id) ≡ false) × (find is_row xs ≡ some y))
    found_cases x xs y (others, unique) e = elim (Bool-cases (key x == id)) [
      | inl same ↦
          let absent : All (IsOther id) xs = rw (==→eq (key x) id same) at others in
          inl (this (Bool-cases (q x)) same absent, ==→eq (key x) id same, absent)
      | inr other ↦ inr (other, rw other at e)
    ]
      where
        this : (q x ≡ true) ⊎ (q x ≡ false) → (key x == id) ≡ true → All (IsOther id) xs → x ≡ y
        this (inl here) same absent = eq_of_some (rw (same, here) at e)
        this (inr elsewhere) same absent =
            absurd (cc (rw (same, elsewhere) at e, find_absent xs absent))

    pub found_key : (xs : List A) (y : A) → HasUniqueKeys xs → find is_row xs ≡ some y → key y ≡ id
    found_key [] y u e = absurd (cc e)
    found_key (x ∷ xs) y u e = elim (found_cases x xs y u e) [
      | inl (same, here, _) ↦ ap key (sym same) ∙ here
      | inr (other, rest) ↦ found_key xs y u.1 rest
    ]
