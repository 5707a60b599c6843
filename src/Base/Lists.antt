-- ===== src/Base/Lists.antt =====
-- Lists as Python's sequences, and as sets of texts where only membership counts.
use Prim.Native.Nat.{ℕ, suc}
use Prim.Native.String.{String}
use mathlib.Core.Path.{◌≡◌, refl}
use mathlib.Core.Bool.{Bool, true, false, not, ◌&&◌, ◌||◌}
use mathlib.Core.List.{List, [], ◌∷◌, ◌++◌}
use structural_reconciliatio.Base.Tests.{◌==◌, if◌then◌else◌}

module _ {ℓ} {A : Type ℓ} where
  abbrev pub length : List A → ℕ
  length [] = 0
  length (x ∷ xs) = suc (length xs)

  -- `[x for x in xs if p(x)]`
  unfoldable pub filter : (A → Bool) → List A → List A
  filter p [] = []
  filter p (x ∷ xs) = let rest = filter p xs in if p x then x ∷ rest else rest

  unfoldable pub any : (A → Bool) → List A → Bool
  any p [] = false
  any p (x ∷ xs) = p x || any p xs

  unfoldable pub is_empty : List A → Bool
  is_empty [] = true
  is_empty (x ∷ xs) = false

  -- `for x in xs: out.extend(f(x))`
  unfoldable pub collect {κ} : {B : Type κ} → (A → List B) → List A → List B
  collect f [] = []
  collect f (x ∷ xs) = f x ++ collect f xs

  abbrev pub All {κ} : (A → Type κ) → List A → Type κ
  All P [] = Unit
  All P (x ∷ xs) = P x × All P xs

-- `x in xs`
unfoldable pub contains : String → List String → Bool
contains x [] = false
contains x (y ∷ ys) = x == y || contains x ys

-- `len(set(xs)) == len(xs)`
unfoldable pub nodup : List String → Bool
nodup [] = true
nodup (x ∷ xs) = not (contains x xs) && nodup xs

module _ {ℓ} {A : Type ℓ} where
  pub append_nil_left : (xs ys : List A) → xs ++ ys ≡ [] → xs ≡ []
  append_nil_left [] ys h = refl
  append_nil_left (x ∷ xs) ys h = cc

  pub append_nil_right : (xs ys : List A) → xs ++ ys ≡ [] → ys ≡ []
  append_nil_right [] ys h = h
  append_nil_right (x ∷ xs) ys h = cc

  pub All-map {κ μ} :
      {P : A → Type κ} {Q : A → Type μ} (xs : List A) → ((x : A) → P x → Q x) → All P xs → All Q xs
  All-map [] f h = tt
  All-map (x ∷ xs) f h = (f x h.0, All-map xs f h.1)

module _ {ℓ κ} {A : Type ℓ} {B : Type κ} (f : A → List B) where
  -- Nothing was collected exactly where every element gave nothing.
  pub collect_nil : (xs : List A) → collect f xs ≡ [] → All (λ x. f x ≡ []) xs
  unfolding collect
  collect_nil [] h = tt
  collect_nil (x ∷ xs) h = (
    append_nil_left (f x) (collect f xs) h,
    collect_nil xs (append_nil_right (f x) (collect f xs) h),
  )

  pub nil_collect : (xs : List A) → All (λ x. f x ≡ []) xs → collect f xs ≡ []
  unfolding collect
  nil_collect [] h = refl
  nil_collect (x ∷ xs) h = rw (h.0) (nil_collect xs h.1)
