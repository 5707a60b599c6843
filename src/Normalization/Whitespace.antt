-- ===== src/Normalization/Whitespace.antt =====
-- Collapsing the whitespace of a value twice changes nothing more.
use Prim.Native.Char.{Char}
use Prim.Native.String.{String}
use structural_reconciliatio.Base.{◌≡◌, refl, ap, ◌∙◌, Bool, true, false, Bool-cases, inl, inr}
use structural_reconciliatio.Runtime.{Runtime}
use structural_reconciliatio.Tree.Values.{
  Value, Values, Fields, null, text, int, float, bool, list, dict, nil, cons, end, field,
}
use structural_reconciliatio.Normalization.{
  is_space, collapse, strip_left, stripped_cons, strip_right, normalize_text, normalize_value,
  normalize_values, normalize_fields,
}

space_is_space : is_space " " ≡ true
unfolding is_space
space_is_space = refl

-- Spaces stand alone, and none stands in front after another.
data Neat : Bool → String → Type 0 where
  nothing : (inside : Bool) → Neat inside String.[]
  space : (s : String) → Neat true s → Neat false (String.◌∷◌ " " s)
  letter :
      (inside : Bool) (c : Char) (s : String)
      → is_space c ≡ false
      → Neat false s
      → Neat inside (String.◌∷◌ c s)

collapse-Neat : (inside : Bool) (s : String) → Neat inside (collapse inside s)
unfolding collapse
collapse-Neat inside String.[] = nothing inside
collapse-Neat true (String.◌∷◌ c s) = elim (Bool-cases (is_space c)) [
  | inl e ↦ rw (e, collapse) (collapse-Neat true s)
  | inr e ↦ rw (e, collapse) (letter true c _ e (collapse-Neat false s))
]
collapse-Neat false (String.◌∷◌ c s) = elim (Bool-cases (is_space c)) [
  | inl e ↦ rw (e, collapse) (space _ (collapse-Neat true s))
  | inr e ↦ rw (e, collapse) (letter false c _ e (collapse-Neat false s))
]

Neat-collapse : (inside : Bool) (s : String) → Neat inside s → collapse inside s ≡ s
unfolding collapse
Neat-collapse _ _ (nothing inside) = refl
Neat-collapse _ _ (space s h) =
    rw (space_is_space, collapse) (ap (λ t. String.◌∷◌ " " t) (Neat-collapse true s h))
Neat-collapse _ _ (letter inside c s e h) =
    rw (e, collapse) (ap (λ t. String.◌∷◌ c t) (Neat-collapse false s h))

Neat-weaken : (s : String) → Neat true s → Neat false s
Neat-weaken _ (nothing _) = nothing false
Neat-weaken _ (letter _ c s e h) = letter false c s e h

strip_left-Neat : (inside : Bool) (s : String) → Neat inside s → Neat true (strip_left s)
unfolding strip_left
strip_left-Neat _ _ (nothing inside) = nothing true
strip_left-Neat _ _ (space s h) = rw (space_is_space, strip_left) (strip_left-Neat true s h)
strip_left-Neat _ _ (letter inside c s e h) = rw (e, strip_left) (letter true c s e h)

Neat-strip_left : (s : String) → Neat true s → strip_left s ≡ s
unfolding strip_left
Neat-strip_left _ (nothing _) = refl
Neat-strip_left _ (letter _ c s e h) = rw (e, strip_left) refl

strip_right-Neat : (inside : Bool) (s : String) → Neat inside s → Neat inside (strip_right s)
unfolding strip_right stripped_cons
strip_right-Neat _ _ (nothing inside) = nothing inside
strip_right-Neat _ _ (space s h) = spaced (strip_right s) (strip_right-Neat true s h)
  where
    spaced : (u : String) → Neat true u → Neat false (stripped_cons " " u)
    spaced String.[] k = rw (space_is_space, stripped_cons) (nothing false)
    spaced (String.◌∷◌ d v) k = space (String.◌∷◌ d v) k
strip_right-Neat _ _ (letter inside c s e h) = lettered (strip_right s) (strip_right-Neat false s h)
  where
    lettered : (u : String) → Neat false u → Neat inside (stripped_cons c u)
    lettered String.[] k = rw (e, stripped_cons) (letter inside c String.[] e k)
    lettered (String.◌∷◌ d v) k = letter inside c (String.◌∷◌ d v) e k

stripped_cons-strip_right :
    (c : Char) (u : String)
    → strip_right u ≡ u
    → strip_right (stripped_cons c u) ≡ stripped_cons c u
unfolding strip_right stripped_cons
stripped_cons-strip_right c String.[] h = elim (Bool-cases (is_space c)) [
  | inl e ↦ rw (e, stripped_cons) refl
  | inr e ↦ rw (e, stripped_cons) (rw (e, stripped_cons) refl)
]
stripped_cons-strip_right c (String.◌∷◌ d v) h = rw h refl

strip_right-idempotent : (s : String) → strip_right (strip_right s) ≡ strip_right s
unfolding strip_right
strip_right-idempotent String.[] = refl
strip_right-idempotent (String.◌∷◌ c s) =
    stripped_cons-strip_right c (strip_right s) (strip_right-idempotent s)

normalize_text-idempotent : (s : String) → normalize_text (normalize_text s) ≡ normalize_text s
unfolding normalize_text
normalize_text-idempotent s =
    let neat = strip_right-Neat true _ (strip_left-Neat false _ (collapse-Neat false s)) in
    ap (λ t. strip_right (strip_left t)) (Neat-collapse false _ (Neat-weaken _ neat))
    ∙ ap strip_right (Neat-strip_left _ neat)
    ∙ strip_right-idempotent (strip_left (collapse false s))

module _ ⦃R : Runtime⦄ where
  mutual
    unfolding normalize_value normalize_values normalize_fields

    value_idempotent : (v : Value) → normalize_value (normalize_value v) ≡ normalize_value v
    value_idempotent null = refl
    value_idempotent (text s) = ap text (normalize_text-idempotent s)
    value_idempotent (int n) = refl
    value_idempotent (float x) = refl
    value_idempotent (bool b) = refl
    value_idempotent (list vs) = ap list (values_idempotent vs)
    value_idempotent (dict fs) = ap dict (fields_idempotent fs)

    values_idempotent : (vs : Values) → normalize_values (normalize_values vs) ≡ normalize_values vs
    values_idempotent nil = refl
    values_idempotent (cons v vs) = rw (value_idempotent v) (rw (values_idempotent vs) refl)

    fields_idempotent : (fs : Fields) → normalize_fields (normalize_fields fs) ≡ normalize_fields fs
    fields_idempotent end = refl
    fields_idempotent (field k v fs) = rw (value_idempotent v) (rw (fields_idempotent fs) refl)

  -- Normalizing a value twice gives what normalizing it once gives, at every depth of nesting.
  pub normalize_value-idempotent :
      (v : Value) → normalize_value (normalize_value v) ≡ normalize_value v
  normalize_value-idempotent v = value_idempotent v
