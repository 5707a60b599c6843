-- ===== src/Alignment/Lcs/Table.antt =====
-- The table of lcs.py holds, at row i and column j, the length that a recursion on the two
-- remaining sequences gives.
use structural_reconciliatio.Base.{
  ℕ, zero, suc, ◌+◌, max, Bool, true, false, List, [], ◌∷◌, if◌then◌else◌, ◌≡◌, refl, sym, ap,
  arith, Bool-cases, inl, inr,
}
use structural_reconciliatio.Alignment.Lcs.{entry, zero_row, fill_row, first_row, table}

module _ {ℓ} {A : Type ℓ} (eq : A → A → Bool) where
  unfoldable pub lcs_length : List A → List A → ℕ
  lcs_length [] ys = 0
  lcs_length (x ∷ xs) [] = 0
  lcs_length (x ∷ xs) (y ∷ ys) = elim (eq x y) [
    | true ↦ lcs_length xs ys + 1
    | false ↦ max (lcs_length xs (y ∷ ys)) (lcs_length (x ∷ xs) ys)
  ]

  unfoldable pub row_of : List A → List A → List ℕ
  row_of xs [] = 0 ∷ []
  row_of xs (y ∷ ys) = lcs_length xs (y ∷ ys) ∷ row_of xs ys

  unfoldable pub rows_of : List A → List A → List (List ℕ)
  rows_of [] ys = row_of [] ys ∷ []
  rows_of (x ∷ xs) ys = row_of (x ∷ xs) ys ∷ rows_of xs ys

  unfoldable pub drop : ℕ → List A → List A
  drop zero ys = ys
  drop (suc j) [] = []
  drop (suc j) (y ∷ ys) = drop j ys

  lcs_length-nil : (xs : List A) → lcs_length xs [] ≡ 0
  unfolding lcs_length
  lcs_length-nil [] = refl
  lcs_length-nil (x ∷ xs) = refl

  pub entry-row_of : (xs ys : List A) (j : ℕ) → entry (row_of xs ys) j ≡ lcs_length xs (drop j ys)
  unfolding entry row_of drop
  entry-row_of xs [] zero = sym (lcs_length-nil xs)
  entry-row_of xs [] (suc j) = sym (lcs_length-nil xs)
  entry-row_of xs (y ∷ ys) zero = refl
  entry-row_of xs (y ∷ ys) (suc j) = entry-row_of xs ys j

  zero_row-eq : (ys : List A) → zero_row eq ys ≡ row_of [] ys
  unfolding zero_row row_of lcs_length
  zero_row-eq [] = refl
  zero_row-eq (y ∷ ys) = ap (λ r. 0 ∷ r) (zero_row-eq ys)

  pub lcs_length-cons :
      (x : A) (xs : List A) (y : A) (ys : List A)
      → (if eq x y
          then lcs_length xs ys + 1
          else max (lcs_length xs (y ∷ ys)) (lcs_length (x ∷ xs) ys))
        ≡ lcs_length (x ∷ xs) (y ∷ ys)
  unfolding lcs_length
  lcs_length-cons x xs y ys = elim (Bool-cases (eq x y)) [
    | inl e ↦ ground arith
    | inr e ↦ ground arith
  ]

  fill_row-eq : (x : A) (xs ys : List A) → fill_row eq x ys (row_of xs ys) ≡ row_of (x ∷ xs) ys
  unfolding fill_row row_of drop
  fill_row-eq x xs [] = refl
  fill_row-eq x xs (y ∷ ys) = rw (fill_row-eq x xs ys) (
      rw (entry-row_of xs ys 0) (
        rw (entry-row_of (x ∷ xs) ys 0)
          (ap (λ n. n ∷ row_of (x ∷ xs) ys) (lcs_length-cons x xs y ys))))

  pub first_row-rows_of : (xs ys : List A) → first_row eq (rows_of xs ys) ≡ row_of xs ys
  unfolding first_row rows_of
  first_row-rows_of [] ys = refl
  first_row-rows_of (x ∷ xs) ys = refl

  pub table-eq : (xs ys : List A) → table eq xs ys ≡ rows_of xs ys
  unfolding table rows_of
  table-eq [] ys = ap (λ r. r ∷ []) (zero_row-eq ys)
  table-eq (x ∷ xs) ys =
      rw (table-eq xs ys)
        (rw (first_row-rows_of xs ys) (ap (λ r. r ∷ rows_of xs ys) (fill_row-eq x xs ys)))

  pub drop-suc :
      (j : ℕ) (full : List A) (y : A) (ys : List A) → drop j full ≡ y ∷ ys → drop (suc j) full ≡ ys
  unfolding drop
  drop-suc zero [] y ys h = cc
  drop-suc zero (z ∷ full) y ys h = cc
  drop-suc (suc j) [] y ys h = cc
  drop-suc (suc j) (z ∷ full) y ys h = drop-suc j full y ys h
