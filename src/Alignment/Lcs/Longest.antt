-- ===== src/Alignment/Lcs/Longest.antt =====
-- The edit script of lcs.py spells both sequences and aligns a longest common subsequence.
use structural_reconciliatio.Base.{
  ℕ, suc, ◌≤◌, Bool, true, Option, none, some, List, [], ◌∷◌, leb, map, length, ◌≡◌, refl, sym, ap,
  ◌∙◌, arith, Bool-cases, ◌⊎◌, inl, inr, ◌↔◌,
}
use structural_reconciliatio.Alignment.Lcs.{
  align, Step, entry, first_row, aligned_step, left_step, right_step, walk, align_sequences,
}
use structural_reconciliatio.Alignment.Lcs.Table.{
  lcs_length, row_of, rows_of, drop, entry-row_of, first_row-rows_of, table-eq, drop-suc,
  lcs_length-cons,
}
use mathlib.Core.Path.{subst}

module _ {ℓ} {A : Type ℓ} where
  -- `zs` is `xs` with elements left out.
  pub data Subsequence : List A → List A → Type ℓ where
    done : Subsequence [] []
    skip : (x : A) (zs xs : List A) → Subsequence zs xs → Subsequence zs (x ∷ xs)
    keep : (x : A) (zs xs : List A) → Subsequence zs xs → Subsequence (x ∷ zs) (x ∷ xs)

  pub Subsequence-nil : (xs : List A) → Subsequence [] xs
  Subsequence-nil [] = done
  Subsequence-nil (x ∷ xs) = skip x [] xs (Subsequence-nil xs)

  Subsequence-drop : (z : A) (zs xs : List A) → Subsequence (z ∷ zs) xs → Subsequence zs xs
  Subsequence-drop z zs _ (skip x _ xs p) = skip x zs xs (Subsequence-drop z zs xs p)
  Subsequence-drop z zs _ (keep _ _ xs p) = skip z zs xs p

  Subsequence-tail :
      (z : A) (zs : List A) (x : A) (xs : List A)
      → Subsequence (z ∷ zs) (x ∷ xs)
      → Subsequence zs xs
  Subsequence-tail z zs x xs (skip _ _ _ p) = Subsequence-drop z zs xs p
  Subsequence-tail z zs x xs (keep _ _ _ p) = p

  Subsequence-front :
      (z : A) (zs : List A) (x : A) (xs : List A)
      → Subsequence (z ∷ zs) (x ∷ xs)
      → Subsequence (z ∷ zs) xs ⊎ (z ≡ x)
  Subsequence-front z zs x xs (skip _ _ _ p) = inl p
  Subsequence-front z zs x xs (keep _ _ _ p) = inr refl

  unfoldable pub present : Option A → List A → List A
  present none xs = xs
  present (some x) xs = x ∷ xs

  -- What the script says of either side, and the items it aligns.
  unfoldable pub left_items : List (Step A) → List A
  left_items [] = []
  left_items (s ∷ ss) = present s.left_item (left_items ss)

  unfoldable pub right_items : List (Step A) → List A
  right_items [] = []
  right_items (s ∷ ss) = present s.right_item (right_items ss)

  unfoldable pub aligned_items : List (Step A) → List A
  aligned_items [] = []
  aligned_items (s ∷ ss) = elim s.op [
    | align ↦ present s.left_item (aligned_items ss)
    | _ ↦ aligned_items ss
  ]

module _ {ℓ} {A : Type ℓ} (eq : A → A → Bool) where
  -- The scripts that turn one sequence into the other.
  data Script : List A → List A → List (Step A) → Type ℓ where
    finished : Script [] [] []
    both :
        (x y : A) (xs ys : List A) (ss : List (Step A))
        → eq x y ≡ true
        → Script xs ys ss
        → Script (x ∷ xs) (y ∷ ys) (aligned_step eq x y ∷ ss)
    on_left :
        (x : A) (xs ys : List A) (ss : List (Step A))
        → Script xs ys ss
        → Script (x ∷ xs) ys (left_step eq x ∷ ss)
    on_right :
        (y : A) (xs ys : List A) (ss : List (Step A))
        → Script xs ys ss
        → Script xs (y ∷ ys) (right_step eq y ∷ ss)

  map_right-Script : (ys : List A) → Script [] ys (map (right_step eq) ys)
  map_right-Script [] = finished
  map_right-Script (y ∷ ys) = on_right y [] ys _ (map_right-Script ys)

  map_left-Script : (xs : List A) → Script xs [] (map (left_step eq) xs)
  map_left-Script [] = finished
  map_left-Script (x ∷ xs) = on_left x xs [] _ (map_left-Script xs)

  walk-Script : (xs ys full : List A) (j : ℕ) → Script xs ys (walk eq xs ys j (rows_of eq xs full))
  unfolding walk rows_of
  walk-Script [] ys full j = map_right-Script ys
  walk-Script (x ∷ xs) [] full j = map_left-Script (x ∷ xs)
  walk-Script (x ∷ xs) (y ∷ ys) full j = elim (Bool-cases (eq x y)) [
    | inl e ↦ rw e (both x y xs ys _ e (walk-Script xs ys full (suc j)))
    | inr e ↦
        rw e
          (elim (Bool-cases (
            leb (entry (row_of eq (x ∷ xs) full) (suc j))
              (entry (first_row eq (rows_of eq xs full)) j))) [
                | inl f ↦ rw f (on_left x xs (y ∷ ys) _ (walk-Script xs (y ∷ ys) full j))
                | inr f ↦ rw f (on_right y (x ∷ xs) ys _ (walk-Script (x ∷ xs) ys full (suc j)))
              ])
  ]

  Script-left_items : (xs ys : List A) (ss : List (Step A)) → Script xs ys ss → left_items ss ≡ xs
  unfolding left_items present aligned_step left_step right_step
  Script-left_items _ _ _ finished = refl
  Script-left_items _ _ _ (both x y xs ys ss e h) = ap (λ r. x ∷ r) (Script-left_items xs ys ss h)
  Script-left_items _ _ _ (on_left x xs ys ss h) = ap (λ r. x ∷ r) (Script-left_items xs ys ss h)
  Script-left_items _ _ _ (on_right y xs ys ss h) = Script-left_items xs ys ss h

  Script-right_items : (xs ys : List A) (ss : List (Step A)) → Script xs ys ss → right_items ss ≡ ys
  unfolding right_items present aligned_step left_step right_step
  Script-right_items _ _ _ finished = refl
  Script-right_items _ _ _ (both x y xs ys ss e h) = ap (λ r. y ∷ r) (Script-right_items xs ys ss h)
  Script-right_items _ _ _ (on_left x xs ys ss h) = Script-right_items xs ys ss h
  Script-right_items _ _ _ (on_right y xs ys ss h) = ap (λ r. y ∷ r) (Script-right_items xs ys ss h)

  -- The script of `align_sequences` spells the left sequence on its left side and the right one on
  -- its right side, in order and without loss.
  pub align_sequences-items :
      (left right : List A)
      → (left_items (align_sequences eq left right) ≡ left)
        × (right_items (align_sequences eq left right) ≡ right)
  unfolding align_sequences
  align_sequences-items left right =
      let script = walk-Script left right right 0 in
      rw (table-eq eq left right) (Script-left_items _ _ _ script, Script-right_items _ _ _ script)

  aligned_items-map_right : (ys : List A) → aligned_items (map (right_step eq) ys) ≡ []
  unfolding aligned_items right_step
  aligned_items-map_right [] = refl
  aligned_items-map_right (y ∷ ys) = aligned_items-map_right ys

  aligned_items-map_left : (xs : List A) → aligned_items (map (left_step eq) xs) ≡ []
  unfolding aligned_items left_step
  aligned_items-map_left [] = refl
  aligned_items-map_left (x ∷ xs) = aligned_items-map_left xs

  aligned_items-walk :
      (xs ys full : List A) (j : ℕ)
      → drop eq j full ≡ ys
      → length (aligned_items (walk eq xs ys j (rows_of eq xs full))) ≡ lcs_length eq xs ys
  unfolding aligned_items present walk rows_of aligned_step left_step right_step lcs_length
  aligned_items-walk [] ys full j h = ap length (aligned_items-map_right ys)
  aligned_items-walk (x ∷ xs) [] full j h = ap length (aligned_items-map_left (x ∷ xs))
  aligned_items-walk (x ∷ xs) (y ∷ ys) full j h =
      let later : drop eq (suc j) full ≡ ys = drop-suc eq j full y ys h in
      let below : entry (first_row eq (rows_of eq xs full)) j ≡ lcs_length eq xs (y ∷ ys) =
        ap (λ r. entry r j) (first_row-rows_of eq xs full)
        ∙ entry-row_of eq xs full j
        ∙ ap (lcs_length eq xs) h in
      let right : entry (row_of eq (x ∷ xs) full) (suc j) ≡ lcs_length eq (x ∷ xs) ys =
        entry-row_of eq (x ∷ xs) full (suc j) ∙ ap (lcs_length eq (x ∷ xs)) later in
      elim (Bool-cases (eq x y)) [
        | inl e ↦
            let ih = aligned_items-walk xs ys full (suc j) later in
            ground (arith, lcs_length-cons eq x xs y ys)
        | inr e ↦
            let ih_left = aligned_items-walk xs (y ∷ ys) full j h in
            let ih_right = aligned_items-walk (x ∷ xs) ys full (suc j) later in
            elim (Bool-cases (
              leb (entry (row_of eq (x ∷ xs) full) (suc j))
                (entry (first_row eq (rows_of eq xs full)) j))) [
                  | inl f ↦ ground (arith, lcs_length-cons eq x xs y ys)
                  | inr f ↦ ground (arith, lcs_length-cons eq x xs y ys)
                ]
      ]

module _ {ℓ} {A : Type ℓ} (eq : A → A → Bool) (eq_iff : (a b : A) → (eq a b ≡ true) ↔ (a ≡ b)) where
  Script-Subsequence_left :
      (xs ys : List A) (ss : List (Step A)) → Script eq xs ys ss → Subsequence (aligned_items ss) xs
  unfolding aligned_items present aligned_step left_step right_step
  Script-Subsequence_left _ _ _ finished = done
  Script-Subsequence_left _ _ _ (both x y xs ys ss e h) =
      keep x _ xs (Script-Subsequence_left xs ys ss h)
  Script-Subsequence_left _ _ _ (on_left x xs ys ss h) =
      skip x _ xs (Script-Subsequence_left xs ys ss h)
  Script-Subsequence_left _ _ _ (on_right y xs ys ss h) = Script-Subsequence_left xs ys ss h

  Script-Subsequence_right :
      (xs ys : List A) (ss : List (Step A)) → Script eq xs ys ss → Subsequence (aligned_items ss) ys
  unfolding aligned_items present aligned_step left_step right_step
  Script-Subsequence_right _ _ _ finished = done
  Script-Subsequence_right _ _ _ (both x y xs ys ss e h) =
      subst (λ z. Subsequence (z ∷ aligned_items ss) (y ∷ ys)) (sym ((eq_iff x y).0 e))
        (keep y _ ys (Script-Subsequence_right xs ys ss h))
  Script-Subsequence_right _ _ _ (on_left x xs ys ss h) = Script-Subsequence_right xs ys ss h
  Script-Subsequence_right _ _ _ (on_right y xs ys ss h) =
      skip y _ ys (Script-Subsequence_right xs ys ss h)

  -- Two common elements at the front, or one side's front left out.
  Subsequence-lcs_length :
      (zs xs ys : List A) → Subsequence zs xs → Subsequence zs ys → length zs ≤ lcs_length eq xs ys
  unfolding lcs_length
  Subsequence-lcs_length [] xs ys p q = ground arith
  Subsequence-lcs_length (z ∷ zs) [] ys p q = elim p [ ]
  Subsequence-lcs_length (z ∷ zs) (x ∷ xs) [] p q = elim q [ ]
  Subsequence-lcs_length (z ∷ zs) (x ∷ xs) (y ∷ ys) p q = elim (Bool-cases (eq x y)) [
    | inl e ↦
        let ih =
          Subsequence-lcs_length zs xs ys (Subsequence-tail z zs x xs p)
            (Subsequence-tail z zs y ys q) in
        ground (arith, lcs_length-cons eq x xs y ys)
    | inr e ↦ elim (Subsequence-front z zs x xs p) [
      | inl p' ↦
          let ih = Subsequence-lcs_length (z ∷ zs) xs (y ∷ ys) p' q in
          ground (arith, lcs_length-cons eq x xs y ys)
      | inr f ↦ elim (Subsequence-front z zs y ys q) [
        | inl q' ↦
            let ih = Subsequence-lcs_length (z ∷ zs) (x ∷ xs) ys p q' in
            ground (arith, lcs_length-cons eq x xs y ys)
        | inr g ↦ let t = (eq_iff x y).1 (sym f ∙ g) in cc
      ]
    ]
  ]

  -- With `eq` the equality of the keys, the items that the script aligns are a subsequence of both
  -- sequences.
  pub align_sequences-Subsequence :
      (left right : List A)
      → Subsequence (aligned_items (align_sequences eq left right)) left
        × Subsequence (aligned_items (align_sequences eq left right)) right
  unfolding align_sequences
  align_sequences-Subsequence left right =
      let script = walk-Script eq left right right 0 in
      rw (table-eq eq left right)
        (Script-Subsequence_left _ _ _ script, Script-Subsequence_right _ _ _ script)

  -- With `eq` the equality of the keys, no common subsequence is longer than what the script aligns.
  pub align_sequences-longest :
      (left right zs : List A)
      → Subsequence zs left
      → Subsequence zs right
      → length zs ≤ length (aligned_items (align_sequences eq left right))
  unfolding align_sequences drop
  align_sequences-longest left right zs p q = rw (table-eq eq left right) (
      rw (aligned_items-walk eq left right right 0 refl) (Subsequence-lcs_length zs left right p q))
