-- ===== src/Base/Pigeonhole.antt =====
-- A list of different texts that are all in `ys` is no longer than `ys`.
use structural_reconciliatio.Base.Tests.{◌==◌, if◌then◌else◌, eq→path, eq_refl}
use structural_reconciliatio.Base.Lists.{length, All, contains, nodup}
use Prim.Native.Nat.{suc, ◌≤◌}
use Prim.Native.String.{String}
use mathlib.Core.Path.{◌≡◌}
use mathlib.Core.Bool.{true, false}
use mathlib.Core.List.{List, [], ◌∷◌}
use native.Mathlib.Omega.{arith}

without : String → List String → List String
without x [] = []
without x (y ∷ ys) = if x == y then ys else y ∷ without x ys

length-without :
    (x : String) (ys : List String) → contains x ys ≡ true → suc (length (without x ys)) ≡ length ys
unfolding without contains
length-without x [] h = cc
length-without x (y ∷ ys) h = ground (arith, length-without x ys)

contains-without :
    (x z : String) (ys : List String)
    → (z == x) ≡ false
    → contains z ys ≡ true
    → contains z (without x ys) ≡ true
unfolding without contains
contains-without x z [] n h = cc
contains-without x z (y ∷ ys) n h =
    ground (arith, contains-without x z ys, eq→path x y, eq→path z y, eq_refl z)

All-without :
    (x : String) (ys zs : List String)
    → contains x zs ≡ false
    → All (λ z. contains z ys ≡ true) zs
    → All (λ z. contains z (without x ys) ≡ true) zs
unfolding contains
All-without x ys [] n h = tt
All-without x ys (z ∷ zs) n h = (
  contains-without x z ys (ground (arith, n, eq→path z x, eq_refl x)) h.0,
  All-without x ys zs (ground (arith, n)) h.1,
)

pub length-le_of_nodup :
    (xs ys : List String)
    → nodup xs ≡ true
    → All (λ x. contains x ys ≡ true) xs
    → length xs ≤ length ys
unfolding nodup
length-le_of_nodup [] ys n h = omega arith
length-le_of_nodup (x ∷ xs) ys n h = ground (
  arith,
  length-without x ys h.0,
  length-le_of_nodup xs (without x ys) (ground (arith, n))
      (All-without x ys xs (ground (arith, n)) h.1),
)
