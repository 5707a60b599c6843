-- ===== src/Orchestration/Ccms/Fetching.antt =====
-- What a comparison of two objects of a content system ends with.
use mathlib.Core.Path.{subst}
use Prim.Native.String.{◌++◌ as ◌&◌}
use text.Mathlib.TextLemmas.{append-eq-nil_iff, cons-ne-nil}
use structural_reconciliatio.Base.{
  [], ◌≡◌, ◌⊎◌, ◌∙◌, refl, ap, String, true, Bool-cases, ◌==◌, eq→path, Option, none, some, inl,
  inr,
}
use structural_reconciliatio.Runtime.{Runtime}
use structural_reconciliatio.Tree.{non_empty, require}
use structural_reconciliatio.Errors.{
  ok, too_short, policy_locale_mismatch, returned_bind, ok_injective,
}
use structural_reconciliatio.Localization.Contracts.{AuthoritativeSide}
use structural_reconciliatio.Orchestration.{
  rejected, is_terminal, Answer, given, refused, ComparisonRequest, Environment, validate_request,
  policy_matches,
}
use structural_reconciliatio.Orchestration.Comparison.{
  resolved_id, JobOutcome, stopped_outcome, run_comparison,
}
use structural_reconciliatio.Orchestration.Outcomes.{Answer-cases}
use structural_reconciliatio.Orchestration.Escapes.{run_comparison-Settled}
use structural_reconciliatio.Orchestration.Ccms.{ccms_request, run_from_refs}

prefixed-non_empty : (fresh : String) → non_empty ("job-" & fresh) ≡ true
prefixed-non_empty fresh = elim (Bool-cases (("job-" & fresh) == "")) [
  | inl empty ↦
      absurd (cons-ne-nil _ _ ((append-eq-nil_iff.0 (eq→path ("job-" & fresh) "" empty)).0))
  | inr named ↦ rw named refl
]

resolved_id-stable :
    (job_id : Option String) (fresh other : String)
    → resolved_id (some (resolved_id job_id fresh)) other ≡ resolved_id job_id fresh
unfolding resolved_id
resolved_id-stable none fresh other = rw (prefixed-non_empty fresh) refl
resolved_id-stable (some job_id) fresh other = elim (Bool-cases (non_empty job_id)) [
  | inl named ↦ rw named (rw named refl)
  | inr unnamed ↦ rw unnamed (rw (prefixed-non_empty fresh) refl)
]

module _ ⦃R : Runtime⦄ where
  validated_same :
      (request valid : ComparisonRequest) → validate_request request ≡ ok valid → request ≡ valid
  unfolding validate_request
  validated_same request valid h =
      let (_, _, h₁) = returned_bind (require (non_empty request.locale) too_short) _ h in
      let (_, _, h₂) =
        returned_bind (require (non_empty request.document_profile_id) too_short) _ h₁ in
      let (_, _, h₃) =
        returned_bind
          (require (policy_matches request.policy request.locale) policy_locale_mismatch) _ h₂ in
      ok_injective request valid h₃

  module _ {Ref : Type 0} (env : Environment) (read : Ref → Answer String)
      (source_ref locale_ref : Ref) (locale profile_id : String) (side : AuthoritativeSide)
      (job_id : Option String) (fresh : String) where
    -- The request to compare the two contents.
    pub record Asks (source target : String) (request : ComparisonRequest) : Type 0 where
      pub source_is : request.source_content ≡ source
      pub locale_content_is : request.locale_content ≡ target
      pub locale_is : request.locale ≡ locale
      pub profile_is : request.document_profile_id ≡ profile_id
      pub side_is : request.authoritative_side ≡ side
      pub id_is : request.job_id ≡ some (resolved_id job_id fresh)
      pub no_policy : request.policy ≡ none
      pub no_reports : request.report_formats ≡ []

    -- An object could not be read, or both were and their contents were compared.
    pub data Fetched (outcome : JobOutcome) : Type 0 where
      unread :
          (code : String)
          → (read source_ref ≡ refused code)
            ⊎ ((source : String) × (read source_ref ≡ given source)
                × (read locale_ref ≡ refused code))
          → outcome.job.state ≡ rejected
          → outcome.job.error_code ≡ some code
          → outcome.result ≡ none
          → Fetched outcome
      compared :
          (source target : String) (request : ComparisonRequest)
          → read source_ref ≡ given source
          → read locale_ref ≡ given target
          → Asks source target request
          → run_comparison env request ≡ ok outcome
          → Fetched outcome

    abbrev Ended : JobOutcome → Type 0
    Ended outcome =
        (outcome.job.job_id ≡ resolved_id job_id fresh)
        × (is_terminal outcome.job.state ≡ true)
        × Fetched outcome

    abbrev comparing : String → String → ComparisonRequest
    comparing source target =
        ccms_request source target locale profile_id side (resolved_id job_id fresh)

    Ended-unread :
        (code : String)
        → (read source_ref ≡ refused code)
          ⊎ ((source : String) × (read source_ref ≡ given source)
              × (read locale_ref ≡ refused code))
        → Ended (stopped_outcome rejected (resolved_id job_id fresh) (comparing "" "") code)
    unfolding stopped_outcome is_terminal
    Ended-unread code lost = (refl, refl, Fetched.unread code lost refl refl refl)

    Ended-compared :
        (source target : String) (outcome : JobOutcome)
        → read source_ref ≡ given source
        → read locale_ref ≡ given target
        → run_comparison env (comparing source target) ≡ ok outcome
        → Ended outcome
    unfolding ccms_request
    Ended-compared source target outcome read_source read_locale h =
        let settled = run_comparison-Settled env (comparing source target) outcome h in
        (
          settled.0 ∙ resolved_id-stable job_id fresh env.fresh_id,
          settled.1,
          Fetched.compared source target (comparing source target) read_source read_locale
              (record {
                source_is = refl;
                locale_content_is = refl;
                locale_is = refl;
                profile_is = refl;
                side_is = refl;
                id_is = refl;
                no_policy = refl;
                no_reports = refl;
              })
              h,
        )

    -- A comparison of two objects that returns has a terminal record under the given job id, or a fresh
    -- one where none or an empty one is given; either an object could not be read, and the record is
    -- rejected with the code of the port and has no result, or it is the outcome of the comparison of
    -- the first object's content as source with the second's as locale content, for the given locale,
    -- profile and side, without policy and reports.
    pub run_from_refs-Fetched :
        (outcome : JobOutcome)
        → run_from_refs env read source_ref locale_ref locale profile_id side job_id fresh
          ≡ ok outcome
        → (outcome.job.job_id ≡ resolved_id job_id fresh)
          × (is_terminal outcome.job.state ≡ true)
          × Fetched outcome
    unfolding run_from_refs
    run_from_refs-Fetched outcome h = elim (Answer-cases (read source_ref)) [
      | inr (inl (code, lost)) ↦
          subst Ended (ok_injective _ outcome (rw (lost, run_from_refs) at h))
            (Ended-unread code (inl lost))
      | inr (inr (reason, raised)) ↦ let clash = rw (raised, run_from_refs) at h in absurd (cc)
      | inl (source, read_source) ↦ elim (Answer-cases (read locale_ref)) [
        | inr (inl (code, lost)) ↦
            subst Ended
              (ok_injective _ outcome
                (rw (lost, run_from_refs) at (rw (read_source, run_from_refs) at h)))
              (Ended-unread code (inr (source, read_source, lost)))
        | inr (inr (reason, raised)) ↦
            let clash = rw (raised, run_from_refs) at (rw (read_source, run_from_refs) at h) in
            absurd (cc)
        | inl (target, read_locale) ↦
            let (request, valid, h₁) =
              returned_bind (validate_request (comparing source target)) _
                (rw (read_locale, run_from_refs) at (rw (read_source, run_from_refs) at h)) in
            Ended-compared source target outcome read_source read_locale (
              ap (run_comparison env) (validated_same (comparing source target) request valid) ∙ h₁)
      ]
    ]
