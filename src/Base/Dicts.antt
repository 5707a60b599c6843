-- ===== src/Base/Dicts.antt =====
-- Python's `dict` with text keys, as an association list in insertion order. A dict holds a key
-- once, `IsDict`. Sets of texts are lists too, and only their members count.
use Prim.Native.String.{String}
use mathlib.Core.Path.{◌≡◌, refl, ap, ◌∙◌}
use mathlib.Core.Logic.{inl, inr}
use mathlib.Core.Bool.{true}
use mathlib.Core.Option.{Option, none, some}
use mathlib.Core.List.{List, [], ◌∷◌}
use native.Mathlib.Omega.{arith}
use structural_reconciliatio.Base.Tests.{
  ◌==◌, if◌then◌else◌, eq→path, eq_refl, Bool-cases, Option-cases, is_some,
}
use structural_reconciliatio.Base.Lists.{All, contains, nodup}
use structural_reconciliatio.Base.Sorting.{sort_texts, contains-sort_texts}

abbrev pub Dict {ℓ} : Type ℓ → Type ℓ
Dict V = List (String × V)

module _ {ℓ} {V : Type ℓ} where
  -- `d.get(k)`
  unfoldable pub lookup : Dict V → String → Option V
  lookup [] k = none
  lookup ((j, v) ∷ d) k = if j == k then some v else lookup d k

  -- `d[k] = v`
  unfoldable pub put : Dict V → String → V → Dict V
  put [] k v = (k, v) ∷ []
  put ((j, w) ∷ d) k v = if j == k then (j, v) ∷ d else (j, w) ∷ put d k v

  unfoldable pub keys : Dict V → List String
  keys [] = []
  keys ((j, v) ∷ d) = j ∷ keys d

  abbrev pub IsDict : Dict V → Type 0
  IsDict d = nodup (keys d) ≡ true

  -- The values at the given keys, each with its key.
  unfoldable pub at_keys : Dict V → List String → List (String × V)
  at_keys d [] = []
  at_keys d (k ∷ ks) =
      let rest = at_keys d ks in elim (lookup d k) [ none ↦ rest | some v ↦ (k, v) ∷ rest ]

  -- `for k in sorted(d): v = d[k]`
  unfoldable pub sorted_items : Dict V → List (String × V)
  unfolding at_keys keys
  sorted_items d = at_keys d (sort_texts (keys d))

  pub contains-keys : (d : Dict V) (k : String) → contains k (keys d) ≡ is_some (lookup d k)
  unfolding contains keys lookup is_some
  contains-keys [] k = refl
  contains-keys ((j, v) ∷ d) k =
      ground (arith, contains-keys d k, eq→path j k, eq→path k j, eq_refl k)

  pub lookup-put :
      (d : Dict V) (k j : String) (v : V)
      → lookup (put d k v) j ≡ (if k == j then some v else lookup d j)
  unfolding lookup put
  lookup-put [] k j v = refl
  lookup-put ((i, w) ∷ d) k j v =
      ground (arith, lookup-put d k j v, eq→path i k, eq→path k j, eq→path i j, eq_refl k)

-- A statement about all members of a list of texts, and about each text that `in` finds.
pub All-of_contains {κ} :
    (P : String → Type κ) (xs : List String)
    → ((x : String) → contains x xs ≡ true → P x)
    → All P xs
unfolding contains
All-of_contains P [] h = tt
All-of_contains P (x ∷ xs) h =
    (h x (ground (arith, eq_refl x)), All-of_contains P xs (λ y m. h y (ground (arith, m))))

pub contains_of_All {κ} :
    (P : String → Type κ) (xs : List String) (x : String) → All P xs → contains x xs ≡ true → P x
unfolding contains
contains_of_All P [] x h m = cc
contains_of_All P (y ∷ ys) x h m = elim (Bool-cases (x == y)) [
  | inl same ↦ rw (eq→path x y same) h.0
  | inr other ↦ contains_of_All P ys x h.1 (ground (arith, m))
]

module _ {ℓ κ} {V : Type ℓ} (P : String → V → Type κ) where
  abbrev AtItem : String × V → Type κ
  AtItem e = P e.0 e.1

  All-at_keys :
      (d : Dict V) (ks : List String)
      → ((k : String) (v : V) → lookup d k ≡ some v → P k v)
      → All AtItem (at_keys d ks)
  unfolding at_keys
  All-at_keys d [] h = tt
  All-at_keys d (k ∷ ks) h = elim (Option-cases (lookup d k)) [
    | inl gone ↦ rw (gone, at_keys) (All-at_keys d ks h)
    | inr (v, found) ↦ rw (found, at_keys) (h k v found, All-at_keys d ks h)
  ]

  at_keys-All :
      (d : Dict V) (ks : List String)
      → All AtItem (at_keys d ks)
      → All (λ k. (v : V) → lookup d k ≡ some v → P k v) ks
  unfolding at_keys
  at_keys-All d [] h = tt
  at_keys-All d (k ∷ ks) h = elim (Option-cases (lookup d k)) [
    | inl gone ↦ (λ v e. cc, at_keys-All d ks (rw (gone, at_keys) at h))
    | inr (w, found) ↦
        let both : P k w × All AtItem (at_keys d ks) = rw (found, at_keys) at h in
        (λ v e. let same : w ≡ v = cc in rw (← same) both.0, at_keys-All d ks both.1)
  ]

  -- The loop `for k in sorted(d)` meets exactly the entries of `d`.
  pub All-sorted_items :
      (d : Dict V)
      → ((k : String) (v : V) → lookup d k ≡ some v → P k v)
      → All AtItem (sorted_items d)
  unfolding sorted_items
  All-sorted_items d h = All-at_keys d (sort_texts (keys d)) h

  pub sorted_items_All :
      (d : Dict V) (k : String) (v : V) → All AtItem (sorted_items d) → lookup d k ≡ some v → P k v
  unfolding sorted_items is_some
  sorted_items_All d k v h e =
      contains_of_All (λ j. (w : V) → lookup d j ≡ some w → P j w) (sort_texts (keys d)) k
        (at_keys-All d (sort_texts (keys d)) h)
        (contains-sort_texts k (keys d) ∙ contains-keys d k ∙ ap is_some e) v e
