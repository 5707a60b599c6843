-- ===== src/Base/Members.antt =====
-- Members of a list, and statements about all of them, under the operations on lists.
use mathlib.Core.Path.{◌≡◌, refl, sym, ap, subst}
use mathlib.Core.Logic.{inl, inr}
use mathlib.Core.Bool.{Bool, true}
use mathlib.Core.List.{List, [], ◌∷◌, ◌++◌, map, Memᴰ}
use mathlib.Core.List.Memᴰ.{head, tail}
use structural_reconciliatio.Base.Tests.{Bool-cases}
use structural_reconciliatio.Base.Lists.{All, filter, collect}

module _ {ℓ κ} {A : Type ℓ} (P : A → Type κ) where
  pub All-Memᴰ : (xs : List A) (x : A) → All P xs → Memᴰ x xs → P x
  All-Memᴰ [] x h m = elim m [ ]
  All-Memᴰ (y ∷ ys) x h m = elim m [
    | head same ↦ subst P (sym same) h.0
    | tail rest ↦ All-Memᴰ ys x h.1 rest
  ]

  pub All-of_Memᴰ : (xs : List A) → ((x : A) → Memᴰ x xs → P x) → All P xs
  All-of_Memᴰ [] h = tt
  All-of_Memᴰ (x ∷ xs) h = (h x (head refl), All-of_Memᴰ xs (λ y m. h y (tail m)))

  pub All-image {μ} :
      {B : Type μ} (f : B → A) (xs : List B) → All (λ x. P (f x)) xs → All P (map f xs)
  All-image f [] h = tt
  All-image f (x ∷ xs) h = (h.0, All-image f xs h.1)

  pub All-join : (xs ys : List A) → All P xs → All P ys → All P (xs ++ ys)
  All-join [] ys h k = k
  All-join (x ∷ xs) ys h k = (h.0, All-join xs ys h.1 k)

  pub All-collect {μ} :
      {B : Type μ} (f : B → List A) (xs : List B) → ((x : B) → All P (f x)) → All P (collect f xs)
  unfolding collect
  All-collect f [] h = tt
  All-collect f (x ∷ xs) h = All-join (f x) (collect f xs) (h x) (All-collect f xs h)

  pub All-each {μ} : {B : Type μ} (f : B → A) (xs : List B) → ((x : B) → P (f x)) → All P (map f xs)
  All-each f [] h = tt
  All-each f (x ∷ xs) h = (h x, All-each f xs h)

-- The same, where the elements of the list it ranges over are known to satisfy `Q`.
module _ {ℓ κ μ ν} {A : Type ℓ} {B : Type μ} (P : A → Type κ) (Q : B → Type ν) where
  pub All-collect_on :
      (f : B → List A) (xs : List B)
      → ((x : B) → Q x → All P (f x))
      → All Q xs
      → All P (collect f xs)
  unfolding collect
  All-collect_on f [] h q = tt
  All-collect_on f (x ∷ xs) h q =
      All-join P (f x) (collect f xs) (h x q.0) (All-collect_on f xs h q.1)

  pub All-each_on :
      (f : B → A) (xs : List B) → ((x : B) → Q x → P (f x)) → All Q xs → All P (map f xs)
  All-each_on f [] h q = tt
  All-each_on f (x ∷ xs) h q = (h x q.0, All-each_on f xs h q.1)

module _ {ℓ} {A : Type ℓ} where
  pub All-filter : (p : A → Bool) (xs : List A) → All (λ x. p x ≡ true) (filter p xs)
  unfolding filter
  All-filter p [] = tt
  All-filter p (x ∷ xs) = elim (Bool-cases (p x)) [
    | inl e ↦ rw e (e, All-filter p xs)
    | inr e ↦ rw e (All-filter p xs)
  ]

  pub Memᴰ-kept :
      (p : A → Bool) (x : A) (xs : List A) → p x ≡ true → Memᴰ x xs → Memᴰ x (filter p xs)
  unfolding filter
  Memᴰ-kept p x [] h m = elim m [ ]
  Memᴰ-kept p x (y ∷ ys) h m = elim (Bool-cases (p y)) [
    | inl e ↦ rw e (elim m [ head same ↦ head same | tail rest ↦ tail (Memᴰ-kept p x ys h rest) ])
    | inr e ↦ rw e (elim m [
      | head same ↦ let clash = ap p same in absurd (cc)
      | tail rest ↦ Memᴰ-kept p x ys h rest
    ])
  ]

  pub Memᴰ-left : (xs ys : List A) (x : A) → Memᴰ x xs → Memᴰ x (xs ++ ys)
  Memᴰ-left [] ys x m = elim m [ ]
  Memᴰ-left (y ∷ xs) ys x m = elim m [
    | head same ↦ head same
    | tail rest ↦ tail (Memᴰ-left xs ys x rest)
  ]

  pub Memᴰ-right : (xs ys : List A) (x : A) → Memᴰ x ys → Memᴰ x (xs ++ ys)
  Memᴰ-right [] ys x m = m
  Memᴰ-right (y ∷ xs) ys x m = tail (Memᴰ-right xs ys x m)

module _ {ℓ κ} {A : Type ℓ} {B : Type κ} where
  pub Memᴰ-image : (f : A → B) (xs : List A) (x : A) → Memᴰ x xs → Memᴰ (f x) (map f xs)
  Memᴰ-image f [] x m = elim m [ ]
  Memᴰ-image f (y ∷ xs) x m = elim m [
    | head same ↦ head (ap f same)
    | tail rest ↦ tail (Memᴰ-image f xs x rest)
  ]

  pub Memᴰ-collect :
      (f : A → List B) (xs : List A) (x : A) (y : B)
      → Memᴰ x xs
      → Memᴰ y (f x)
      → Memᴰ y (collect f xs)
  unfolding collect
  Memᴰ-collect f [] x y m h = elim m [ ]
  Memᴰ-collect f (z ∷ xs) x y m h = elim m [
    | head same ↦ Memᴰ-left (f z) (collect f xs) y (subst (λ w. Memᴰ y (f w)) same h)
    | tail rest ↦ Memᴰ-right (f z) (collect f xs) y (Memᴰ-collect f xs x y rest h)
  ]
