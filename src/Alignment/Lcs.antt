-- ===== src/Alignment/Lcs.antt =====
-- core/alignment/lcs.py: the table of subsequence lengths and the edit script read off it.
pub mod Table
pub mod Longest
use structural_reconciliatio.Base.{
  ℕ, zero, suc, ◌+◌, max, Bool, true, false, Option, none, some, List, [], ◌∷◌, leb, if◌then◌else◌,
  map,
}

pub data Op : Type 0 where
  align left_only right_only : Op

-- One triple of the script.
pub record Step {ℓ} (A : Type ℓ) : Type ℓ where
  pub op : Op
  pub left_item : Option A
  pub right_item : Option A

-- `row[j]` inside the row
unfoldable pub entry : List ℕ → ℕ → ℕ
entry [] j = 0
entry (n ∷ ns) zero = n
entry (n ∷ ns) (suc j) = entry ns j

module _ {ℓ} {A : Type ℓ} (eq : A → A → Bool) where
  -- The initial row: a zero for each position and one more.
  unfoldable pub zero_row : List A → List ℕ
  zero_row [] = 0 ∷ []
  zero_row (y ∷ ys) = 0 ∷ zero_row ys

  -- Row `i` from row `i + 1`, both from column `j` on, filled from the right.
  unfoldable pub fill_row : A → List A → List ℕ → List ℕ
  fill_row x [] below = 0 ∷ []
  fill_row x (y ∷ ys) [] = []
  fill_row x (y ∷ ys) (n ∷ below) =
      let rest = fill_row x ys below in
      (if eq x y then entry below 0 + 1 else max n (entry rest 0)) ∷ rest

  unfoldable pub first_row : List (List ℕ) → List ℕ
  first_row [] = []
  first_row (row ∷ rows) = row

  -- `dp`, filled from the last row up.
  unfoldable pub table : List A → List A → List (List ℕ)
  table [] ys = zero_row ys ∷ []
  table (x ∷ xs) ys = let rest = table xs ys in fill_row x ys (first_row rest) ∷ rest

  unfoldable pub aligned_step : A → A → Step A
  aligned_step x y = record { op = align; left_item = some x; right_item = some y }

  unfoldable pub left_step : A → Step A
  left_step x = record { op = left_only; left_item = some x; right_item = none }

  unfoldable pub right_step : A → Step A
  right_step y = record { op = right_only; left_item = none; right_item = some y }

  -- The loops that walk the table: `xs` and `ys` are what is left from `i` and `j` on, and the
  -- rows those from `i` on.
  unfoldable pub walk : List A → List A → ℕ → List (List ℕ) → List (Step A)
  walk [] ys j rows = map right_step ys
  walk (x ∷ xs) [] j rows = map left_step (x ∷ xs)
  walk (x ∷ xs) (y ∷ ys) j [] = []
  walk (x ∷ xs) (y ∷ ys) j (row ∷ rows) = elim (eq x y) [
    | true ↦ aligned_step x y ∷ walk xs ys (suc j) rows
    | false ↦ elim (leb (entry row (suc j)) (entry (first_row rows) j)) [
      | true ↦ left_step x ∷ walk xs (y ∷ ys) j rows
      | false ↦ right_step y ∷ walk (x ∷ xs) ys (suc j) (row ∷ rows)
    ]
  ]

  unfoldable pub align_sequences : List A → List A → List (Step A)
  align_sequences left right = walk left right 0 (table left right)
