-- ===== src/Base/Picks.antt =====
-- `{f(x) for x in xs if p(x)}`: its members and repetitions under `++` and under sorting; and the
-- keys of a dict under assignment.
use Prim.Native.String.{String}
use mathlib.Core.Path.{◌≡◌, refl, ap}
use mathlib.Core.Logic.{inl, inr}
use mathlib.Core.Bool.{Bool, true, false, ◌&&◌, ◌||◌}
use mathlib.Core.List.{List, [], ◌∷◌, ◌++◌, map}
use native.Mathlib.Omega.{arith}
use structural_reconciliatio.Base.Tests.{◌==◌, eq→path, eq_refl, Bool-cases}
use structural_reconciliatio.Base.Lists.{filter, contains, nodup}
use structural_reconciliatio.Base.Sorting.{insert, sort}
use structural_reconciliatio.Base.Dicts.{Dict, put, keys}

pub contains-append :
    (x : String) (xs ys : List String) → contains x (xs ++ ys) ≡ (contains x xs || contains x ys)
unfolding contains
contains-append x [] ys = refl
contains-append x (z ∷ zs) ys = ground (arith, contains-append x zs ys)

pub eq_sym : (x y : String) → (x == y) ≡ (y == x)
eq_sym x y = ground (arith, eq→path x y, eq→path y x, eq_refl x)

pub nodup-cons :
    (x : String) (xs : List String)
    → contains x xs ≡ false
    → nodup xs ≡ true
    → nodup (x ∷ xs) ≡ true
unfolding nodup
nodup-cons x xs h k = ground arith

module _ {ℓ} {A : Type ℓ} (f : A → String) (p : A → Bool) where
  abbrev pub picked : List A → List String
  picked xs = map f (filter p xs)

  pub picked-append : (xs ys : List A) → picked (xs ++ ys) ≡ picked xs ++ picked ys
  unfolding filter
  picked-append [] ys = refl
  picked-append (x ∷ xs) ys = ground (arith, picked-append xs ys)

  contains-picked-insert :
      (le : A → A → Bool) (z : String) (x : A) (xs : List A)
      → contains z (picked (insert le x xs)) ≡ contains z (picked (x ∷ xs))
  unfolding filter insert contains
  contains-picked-insert le z x [] = refl
  contains-picked-insert le z x (y ∷ ys) = ground (arith, contains-picked-insert le z x ys)

  pub contains-picked-sort :
      (le : A → A → Bool) (z : String) (xs : List A)
      → contains z (picked (sort le xs)) ≡ contains z (picked xs)
  unfolding filter sort contains
  contains-picked-sort le z [] = refl
  contains-picked-sort le z (x ∷ xs) =
      ground (arith, contains-picked-insert le z x (sort le xs), contains-picked-sort le z xs)

  nodup-picked-insert :
      (le : A → A → Bool) (x : A) (xs : List A)
      → nodup (picked (insert le x xs)) ≡ nodup (picked (x ∷ xs))
  unfolding filter insert contains nodup
  nodup-picked-insert le x [] = refl
  nodup-picked-insert le x (y ∷ ys) =
      ground (
        arith,
        nodup-picked-insert le x ys,
        contains-picked-insert le (f y) x ys,
        eq_sym (f x) (f y),
      )

  -- Sorting a list of records neither adds nor removes a repetition among the picked names.
  pub nodup-picked-sort :
      (le : A → A → Bool) (xs : List A) → nodup (picked (sort le xs)) ≡ nodup (picked xs)
  unfolding filter sort contains nodup
  nodup-picked-sort le [] = refl
  nodup-picked-sort le (x ∷ xs) = ground (
    arith,
    nodup-picked-insert le x (sort le xs),
    nodup-picked-sort le xs,
    contains-picked-sort le (f x) xs,
  )

contains-keys-put :
    {V : Type 0} (d : Dict V) (k : String) (v : V) (j : String)
    → contains j (keys (put d k v)) ≡ (j == k || contains j (keys d))
unfolding contains keys put
contains-keys-put [] k v j = refl
contains-keys-put ((i, w) ∷ d) k v j =
    ground (arith, contains-keys-put d k v j, eq→path i k, eq_sym i k)

-- Assignment keeps the keys of a dict different.
pub nodup-keys-put :
    {V : Type 0} (d : Dict V) (k : String) (v : V)
    → nodup (keys d) ≡ true
    → nodup (keys (put d k v)) ≡ true
unfolding nodup keys put contains
nodup-keys-put [] k v h = refl
nodup-keys-put ((i, w) ∷ d) k v h =
    ground (arith, nodup-keys-put d k v (ground (arith, h)), contains-keys-put d k v i)

pub contains-filter :
    (p : String → Bool) (x : String) (xs : List String)
    → contains x (filter p xs) ≡ (contains x xs && p x)
unfolding contains filter
contains-filter p x [] = refl
contains-filter p x (y ∷ ys) = elim (Bool-cases (x == y)) [
  | inl same ↦ let e : x ≡ y = eq→path x y same in ground (arith, contains-filter p x ys, ap p e)
  | inr other ↦ ground (arith, contains-filter p x ys)
]

pub nodup-filter :
    (p : String → Bool) (xs : List String) → nodup xs ≡ true → nodup (filter p xs) ≡ true
unfolding nodup filter
nodup-filter p [] h = refl
nodup-filter p (x ∷ xs) h =
    ground (arith, nodup-filter p xs (ground (arith, h)), contains-filter p x xs)
