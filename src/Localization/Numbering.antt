-- ===== src/Localization/Numbering.antt =====
-- How the drafts of issues become issues: their identifiers grow, and no repair is attached yet.
use mathlib.Core.List.{Memᴰ}
use mathlib.Core.List.Memᴰ.{head, tail}
use mathlib.Core.Path.{subst}
use structural_reconciliatio.Base.{
  ℕ, suc, ◌<◌, ◌≡◌, refl, sym, ap, ◌∙◌, Bool, none, List, [], ◌∷◌, filter, All, Bool-cases, inl,
  inr, arith,
}
use structural_reconciliatio.Runtime.{Runtime}
use structural_reconciliatio.Errors.{ok, returned_bind, ok_injective}
use structural_reconciliatio.Tree.{require}
use structural_reconciliatio.Localization.Contracts.{LocalizationIssue, validate_issue}
use structural_reconciliatio.Localization.Interpretation.{Draft, number}

module _ ⦃R : Runtime⦄ where
  pub validate_issue-eq :
      (issue made : LocalizationIssue) → validate_issue issue ≡ ok made → issue ≡ made
  unfolding validate_issue
  validate_issue-eq issue made h =
      let (_, _, h₁) = returned_bind (require _ _) _ h in
      let (_, _, h₂) = returned_bind (require _ _) _ h₁ in
      let (_, _, h₃) = returned_bind (require _ _) _ h₂ in
      let (_, _, h₄) = returned_bind (require _ _) _ h₃ in
      let (_, _, h₅) = returned_bind (require _ _) _ h₄ in
      let (_, _, h₆) = returned_bind (require _ _) _ h₅ in ok_injective issue made h₆

  -- A fact about what the code writes is one about what the validator lets pass.
  pub made_issue :
      (P : LocalizationIssue → Type 0) (issue made : LocalizationIssue)
      → P issue
      → validate_issue issue ≡ ok made
      → P made
  made_issue P issue made p h = subst P (validate_issue-eq issue made h) p

  -- A new issue has the identifier it was given, and no repair.
  pub record Fresh (id : ℕ) (issue : LocalizationIssue) : Type 0 where
    pub numbered : issue.issue_id ≡ id
    pub unlinked : issue.recommendation_id ≡ none
    pub unrepaired : issue.repair_confidence ≡ none

  abbrev pub MakesFresh : Draft → Type 0
  MakesFresh draft = (id : ℕ) (issue : LocalizationIssue) → draft id ≡ ok issue → Fresh id issue

  -- Identifiers grow along the list, from above `n`, and no issue is linked.
  abbrev pub Ascending : ℕ → List LocalizationIssue → Type 0
  Ascending n [] = Unit
  Ascending n (issue ∷ issues) =
      (n < issue.issue_id) × Fresh issue.issue_id issue × Ascending issue.issue_id issues

  pub Ascending-weaken :
      (m n : ℕ) (issues : List LocalizationIssue)
      → n < suc m
      → Ascending m issues
      → Ascending n issues
  Ascending-weaken m n [] le h = tt
  Ascending-weaken m n (issue ∷ issues) le h = (omega (arith, h.0), h.1, h.2)

  pub Ascending-number :
      (n : ℕ) (drafts : List Draft) (issues : List LocalizationIssue)
      → All MakesFresh drafts
      → number n drafts ≡ ok issues
      → Ascending n issues
  unfolding number
  Ascending-number n [] issues fresh h = subst (Ascending n) (ok_injective [] issues h) tt
  Ascending-number n (draft ∷ drafts) issues fresh h =
      let (issue, made, h₁) = returned_bind (draft (suc n)) _ h in
      let (rest, others, h₂) = returned_bind (number (suc n) drafts) _ h₁ in
      let new = fresh.0 (suc n) issue made in
      let later : Ascending (suc n) rest = Ascending-number (suc n) drafts rest fresh.1 others in
      subst (Ascending n) (ok_injective (issue ∷ rest) issues h₂) (
        omega (arith, new.numbered),
        record { numbered = refl; unlinked = new.unlinked; unrepaired = new.unrepaired },
        subst (λ k. Ascending k rest) (sym new.numbered) later,
      )

  pub Ascending-filter :
      (p : LocalizationIssue → Bool) (n : ℕ) (issues : List LocalizationIssue)
      → Ascending n issues
      → Ascending n (filter p issues)
  unfolding filter
  Ascending-filter p n [] h = tt
  Ascending-filter p n (issue ∷ issues) h = elim (Bool-cases (p issue)) [
    | inl e ↦ rw e (h.0, h.1, Ascending-filter p issue.issue_id issues h.2)
    | inr e ↦ rw e (
        Ascending-weaken issue.issue_id n (filter p issues) (omega (arith, h.0))
          (Ascending-filter p issue.issue_id issues h.2))
  ]

  -- Every draft has its issue among the numbered ones.
  pub number-Memᴰ :
      (n : ℕ) (drafts : List Draft) (issues : List LocalizationIssue) (draft : Draft)
      → number n drafts ≡ ok issues
      → Memᴰ draft drafts
      → (id : ℕ) × (issue : LocalizationIssue) × (draft id ≡ ok issue) × Memᴰ issue issues
  unfolding number
  number-Memᴰ n [] issues draft h m = elim m [ ]
  number-Memᴰ n (first ∷ drafts) issues draft h m =
      let (issue, made, h₁) = returned_bind (first (suc n)) _ h in
      let (rest, others, h₂) = returned_bind (number (suc n) drafts) _ h₁ in
      let whole = ok_injective (issue ∷ rest) issues h₂ in
      elim m [
        | head same ↦ (
          suc n,
          issue,
          ap (λ (d : Draft). d (suc n)) same ∙ made,
          subst (Memᴰ issue) whole (head refl),
        )
        | tail later ↦
            let (id, found, written, there) = number-Memᴰ (suc n) drafts rest draft others later in
            (id, found, written, subst (Memᴰ found) whole (tail there))
      ]
