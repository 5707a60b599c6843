-- ===== src/Runtime/Int.antt =====
-- Python's `int`, as it occurs among property values: only compared.
use structural_reconciliatio.Base.{ℕ, Bool, true, false, leb, ◌&&◌}

-- `negsuc n` is -(n + 1).
pub data ℤ : Type 0 where
  pos : ℕ → ℤ
  negsuc : ℕ → ℤ

-- `a == b`
unfoldable pub int_eq : ℤ → ℤ → Bool
int_eq (pos m) (pos n) = leb m n && leb n m
int_eq (negsuc m) (negsuc n) = leb m n && leb n m
int_eq _ _ = false

-- `int(b)` of a Boolean
unfoldable pub int_of_bool : Bool → ℤ
int_of_bool true = pos 1
int_of_bool false = pos 0
