-- ===== src/Base/Sorting.antt =====
-- `sorted(xs, key=...)`: a stable sort by a Boolean order, and the order of texts.
use Prim.Native.Char.{Char, code}
use Prim.Native.Nat.{Ordering, compare as compare_ℕ}
use Prim.Native.String.compare as compare_clauses
use Prim.Native.String.{String}
use mathlib.Core.Path.{◌≡◌, refl, ap, ◌∙◌}
use mathlib.Core.Logic.{inl, inr, ∥∥₁_elim}
use mathlib.Core.Bool.{Bool, true, false, ◌||◌}
use mathlib.Core.List.{List, [], ◌∷◌, Perm, Permᴰ}
use mathlib.Core.List.Perm
use native.Mathlib.Omega.{arith}
use text.Mathlib.TextEquality.{Char-path}
use structural_reconciliatio.Base.Tests.{◌==◌, if◌then◌else◌, text_le, eq→path, eq_refl, Bool-cases}
use structural_reconciliatio.Base.Lists.{All, contains, nodup}

module _ {ℓ} {A : Type ℓ} (le : A → A → Bool) where
  -- Before the first element that is not smaller, so equal elements keep their order.
  unfoldable pub insert : A → List A → List A
  insert x [] = x ∷ []
  insert x (y ∷ ys) = if le x y then x ∷ y ∷ ys else y ∷ insert x ys

  unfoldable pub sort : List A → List A
  unfolding insert
  sort [] = []
  sort (x ∷ xs) = insert x (sort xs)

  insert-perm : (x : A) (xs : List A) → Perm (insert x xs) (x ∷ xs)
  unfolding insert
  insert-perm x [] = Perm.rfl
  insert-perm x (y ∷ ys) = elim (Bool-cases (le x y)) [
    | inl first ↦ rw first Perm.rfl
    | inr later ↦ rw later (Perm.trans (Perm.cons y (insert-perm x ys)) (Perm.swap x y ys))
  ]

  -- Sorting keeps every element, as often as it was there.
  pub sort-perm : (xs : List A) → Perm (sort xs) xs
  unfolding sort
  sort-perm [] = Perm.rfl
  sort-perm (x ∷ xs) = Perm.trans (insert-perm x (sort xs)) (Perm.cons x (sort-perm xs))

  All-insert {κ} : (P : A → Type κ) (x : A) (xs : List A) → P x → All P xs → All P (insert x xs)
  unfolding insert
  All-insert P x [] p ps = (p, tt)
  All-insert P x (y ∷ ys) p ps = elim (Bool-cases (le x y)) [
    | inl first ↦ rw first (p, ps)
    | inr later ↦ rw later (ps.0, All-insert P x ys p ps.1)
  ]

  pub All-sort {κ} : (P : A → Type κ) (xs : List A) → All P xs → All P (sort xs)
  unfolding sort
  All-sort P [] ps = tt
  All-sort P (x ∷ xs) ps = All-insert P x (sort xs) ps.0 (All-sort P xs ps.1)

-- What a comparison of sort keys satisfies; `antisymmetric` where equal keys are equal elements.
pub record IsTotalOrder {ℓ} {A : Type ℓ} (le : A → A → Bool) : Type ℓ where
  pub total : (x y : A) → le x y ≡ false → le y x ≡ true
  pub transitive : (x y z : A) → le x y ≡ true → le y z ≡ true → le x z ≡ true
  pub antisymmetric : (x y : A) → le x y ≡ true → le y x ≡ true → x ≡ y

module _ {ℓ} {A : Type ℓ} {le : A → A → Bool} (order : IsTotalOrder le) where
  open order use {total, transitive, antisymmetric}

  insert-insert :
      (x y : A) (zs : List A) → insert le x (insert le y zs) ≡ insert le y (insert le x zs)
  unfolding insert
  insert-insert x y [] = ground (arith, total x y, total y x, antisymmetric x y)
  insert-insert x y (z ∷ zs) = ground (
    arith,
    total x y,
    total y x,
    antisymmetric x y,
    transitive x y z,
    transitive y x z,
    insert-insert x y zs,
    total x z,
    total y z,
    transitive y z x,
    transitive x z y,
  )

  sort-permᴰ : {xs ys : List A} → Permᴰ xs ys → sort le xs ≡ sort le ys
  unfolding sort
  sort-permᴰ Permᴰ.nil = refl
  sort-permᴰ (Permᴰ.cons e p) = cc (e, sort-permᴰ p)
  sort-permᴰ (Permᴰ.swap {a = x} {b = y} {l = l} e f) = cc (e, f, insert-insert x y (sort le l))
  sort-permᴰ (Permᴰ.trans p q) = sort-permᴰ p ∙ sort-permᴰ q

  -- The order in which equal elements were given does not show in the sorted list.
  pub sort_of_perm : IsSet A → {xs ys : List A} → Perm xs ys → sort le xs ≡ sort le ys
  sort_of_perm set p = ∥∥₁_elim p (hlevel set) sort-permᴰ

abbrev by_first : Ordering → Bool → Bool
by_first Ordering.lt rest = true
by_first Ordering.eq rest = rest
by_first Ordering.gt rest = false

text_le-cons :
    (c d : Char) (s t : String)
    → text_le (String.◌∷◌ c s) (String.◌∷◌ d t)
      ≡ by_first (compare_ℕ (code c) (code d)) (text_le s t)
unfolding text_le
text_le-cons c d s t = rw (compare_clauses.cons-cons c d s t, text_le) (ground arith)

text_le-nil : (t : String) → text_le String.[] t ≡ true
unfolding text_le
text_le-nil String.[] = refl
text_le-nil (String.◌∷◌ d t) = rw (compare_clauses.nil-cons d t, text_le)

text_le-cons_nil : (c : Char) (s : String) → text_le (String.◌∷◌ c s) String.[] ≡ false
unfolding text_le
text_le-cons_nil c s = rw (compare_clauses.cons-nil c s, text_le)

text_le_total : (s t : String) → text_le s t ≡ false → text_le t s ≡ true
text_le_total String.[] t h = cc (text_le-nil t)
text_le_total (String.◌∷◌ c s) String.[] h = text_le-nil _
text_le_total (String.◌∷◌ c s) (String.◌∷◌ d t) h =
    ground (arith, text_le-cons c d s t, text_le-cons d c t s, text_le_total s t)

text_le_trans : (s t u : String) → text_le s t ≡ true → text_le t u ≡ true → text_le s u ≡ true
text_le_trans String.[] t u h k = text_le-nil u
text_le_trans (String.◌∷◌ c s) String.[] u h k = cc (text_le-cons_nil c s)
text_le_trans (String.◌∷◌ c s) (String.◌∷◌ d t) String.[] h k = cc (text_le-cons_nil d t)
text_le_trans (String.◌∷◌ c s) (String.◌∷◌ d t) (String.◌∷◌ e u) h k =
    ground
      (arith, text_le-cons c d s t, text_le-cons d e t u, text_le-cons c e s u, text_le_trans s t u)

text_le_antisymm : (s t : String) → text_le s t ≡ true → text_le t s ≡ true → s ≡ t
text_le_antisymm String.[] String.[] h k = refl
text_le_antisymm String.[] (String.◌∷◌ d t) h k = cc (text_le-cons_nil d t)
text_le_antisymm (String.◌∷◌ c s) String.[] h k = cc (text_le-cons_nil c s)
text_le_antisymm (String.◌∷◌ c s) (String.◌∷◌ d t) h k =
    let same : (code c ≡ code d) × (s ≡ t) =
      ground (arith, text_le-cons c d s t, text_le-cons d c t s, text_le_antisymm s t) in
    cc (Char-path c d same.0, same.1)

pub text_le-IsTotalOrder : IsTotalOrder text_le
text_le-IsTotalOrder = record {
  total = text_le_total;
  transitive = text_le_trans;
  antisymmetric = text_le_antisymm;
}

-- `sorted(texts)`
unfoldable pub sort_texts : List String → List String
unfolding sort text_le
sort_texts = sort text_le

pub contains-insert :
    (le : String → String → Bool) (x y : String) (ys : List String)
    → contains x (insert le y ys) ≡ (x == y || contains x ys)
unfolding insert contains
contains-insert le x y [] = ground arith
contains-insert le x y (z ∷ zs) = ground (arith, contains-insert le x y zs)

pub contains-sort_texts :
    (x : String) (ys : List String) → contains x (sort_texts ys) ≡ contains x ys
unfolding contains sort sort_texts
contains-sort_texts x [] = refl
contains-sort_texts x (y ∷ ys) =
    contains-insert text_le x y (sort_texts ys) ∙ ap (λ b. x == y || b) (contains-sort_texts x ys)

nodup-insert :
    (le : String → String → Bool) (y : String) (ys : List String)
    → nodup (insert le y ys) ≡ nodup (y ∷ ys)
unfolding insert nodup contains
nodup-insert le y [] = refl
nodup-insert le y (z ∷ zs) =
    ground
      (arith, nodup-insert le y zs, contains-insert le z y zs, eq→path y z, eq→path z y, eq_refl y)

pub nodup-sort_texts : (ys : List String) → nodup (sort_texts ys) ≡ nodup ys
unfolding nodup sort sort_texts
nodup-sort_texts [] = refl
nodup-sort_texts (y ∷ ys) =
    ground
      (arith, nodup-insert text_le y (sort_texts ys), nodup-sort_texts ys, contains-sort_texts y ys)
