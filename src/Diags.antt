-- ===== src/Diags.antt =====
-- internal/diags/diagnostics.go: diagnostics, and the first error among them. The text of an error is the
-- error itself; the attribute path that an error may hold is read by a parameter.
use terraform_provider_enos.Prelude.{
  ◌≡◌, refl, ap, subst, inl, inr, Bool-cases, if◌then◌else◌, ◌++◌, Bool, true, false, is_some,
  Option, none, some, List, [], ◌∷◌, String,
}
use terraform_provider_enos.Go.{Err}

-- tfprotov6.DiagnosticSeverity.
pub data Severity : Type 0 where
  invalid error warning : Severity

pub record Diagnostic (P : Type 0) : Type 0 where
  pub severity : Severity
  pub summary : String
  pub detail : Err
  pub attribute : Option P

abbrev pub is_error_severity : Severity → Bool
is_error_severity invalid = false
is_error_severity error = true
is_error_severity warning = false

is_error_severity-inv : (s : Severity) → is_error_severity s ≡ true → s ≡ error
is_error_severity-inv invalid h = absurd (cc h)
is_error_severity-inv error h = refl
is_error_severity-inv warning h = absurd (cc h)

module _ {P : Type 0} where
  abbrev first_of : Bool → Diagnostic P → Option (Diagnostic P) → Option (Diagnostic P)
  first_of true d rest = some d
  first_of false d rest = rest

  unfoldable pub get_error_diagnostic : List (Diagnostic P) → Option (Diagnostic P)
  get_error_diagnostic [] = none
  get_error_diagnostic (d ∷ ds) =
      first_of (is_error_severity d.severity) d (get_error_diagnostic ds)

  -- What a write through the pointer that GetErrorDiagnostic returns makes of the diagnostics, in
  -- which a pointer stands once.
  unfoldable pub set_error_diagnostic : Diagnostic P → List (Diagnostic P) → List (Diagnostic P)
  set_error_diagnostic d' [] = []
  set_error_diagnostic d' (d ∷ ds) =
      let rest = set_error_diagnostic d' ds in
      if is_error_severity d.severity then d' ∷ ds else d ∷ rest

  unfoldable pub has_errors : List (Diagnostic P) → Bool
  unfolding get_error_diagnostic
  has_errors ds = is_some (get_error_diagnostic ds)

  abbrev diagnostic_of : Severity → String → Err → Option (P × Err) → Diagnostic P
  diagnostic_of severity summary err none = record {
    severity = severity;
    summary = summary;
    detail = err;
    attribute = none;
  }
  diagnostic_of severity summary err (some (path, cause)) = record {
    severity = severity;
    summary = summary;
    detail = cause;
    attribute = some path;
  }

  -- `attribute_of` is errors.As to a tftypes.AttributePathError: its path and what it wraps.
  abbrev pub err_to_diagnostic : (Err → Option (P × Err)) → String → Err → Diagnostic P
  err_to_diagnostic attribute_of summary err = diagnostic_of error summary err (attribute_of err)

  abbrev pub err_to_diagnostic_warn : (Err → Option (P × Err)) → String → Err → Diagnostic P
  err_to_diagnostic_warn attribute_of summary err =
      diagnostic_of warning summary err (attribute_of err)

  diagnostic_of-severity :
      (severity : Severity) (summary : String) (err : Err) (o : Option (P × Err))
      → (diagnostic_of severity summary err o).severity ≡ severity
  diagnostic_of-severity severity summary err none = refl
  diagnostic_of-severity severity summary err (some _) = refl

  pub err_to_diagnostic-severity :
      (attribute_of : Err → Option (P × Err)) (summary : String) (err : Err)
      → (err_to_diagnostic attribute_of summary err).severity ≡ error
  err_to_diagnostic-severity attribute_of summary err =
      diagnostic_of-severity error summary err (attribute_of err)

  first_of-is_some :
      (b : Bool) (d : Diagnostic P) (o : Option (Diagnostic P))
      → is_some o ≡ true
      → is_some (first_of b d o) ≡ true
  first_of-is_some true d o h = refl
  first_of-is_some false d o h = h

  -- A last diagnostic that is an error makes the list one with errors.
  pub has_errors-last :
      (ds : List (Diagnostic P)) (d : Diagnostic P)
      → d.severity ≡ error
      → has_errors (ds ++ d ∷ []) ≡ true
  unfolding get_error_diagnostic has_errors
  has_errors-last [] d h = rw h
  has_errors-last (x ∷ ds) d h =
      first_of-is_some (is_error_severity x.severity) x _ (has_errors-last ds d h)

  pub has_errors-is_some :
      (ds : List (Diagnostic P)) (o : Option (Diagnostic P))
      → get_error_diagnostic ds ≡ o
      → has_errors ds ≡ is_some o
  unfolding has_errors
  has_errors-is_some ds o h = rw h refl

  -- The first error of a list, with what stands before and after it, and what a write makes of them.
  abbrev pub FirstError :
      List (Diagnostic P) → List (Diagnostic P) → Diagnostic P → List (Diagnostic P) → Type 0
  FirstError ds before d after =
      (ds ≡ before ++ d ∷ after) × (has_errors before ≡ false) × (d.severity ≡ error)

  pub get_error_diagnostic-FirstError :
      (ds : List (Diagnostic P)) {d : Diagnostic P}
      → get_error_diagnostic ds ≡ some d
      → (before : List (Diagnostic P)) × (after : List (Diagnostic P)) × FirstError ds before d
          after
        × ((d' : Diagnostic P) → set_error_diagnostic d' ds ≡ before ++ d' ∷ after)
  unfolding get_error_diagnostic set_error_diagnostic has_errors
  get_error_diagnostic-FirstError [] h = absurd (cc h)
  get_error_diagnostic-FirstError (x ∷ ds) {d} h =
      elim (Bool-cases (is_error_severity x.severity)) [
        | inl bad ↦
            let same : x ≡ d = cc (rw bad at h) in
            (
              [],
              ds,
              (
                ap (λ (y : Diagnostic P). y ∷ ds) same,
                refl,
                subst (λ y. y.severity ≡ error) same (is_error_severity-inv x.severity bad),
              ),
              λ d'. rw bad refl,
            )
        | inr good ↦
            let (before, after, (e, none_before, bad), written) =
              get_error_diagnostic-FirstError ds (rw good at h) in
            (
              x ∷ before,
              after,
              (ap (◌∷◌ x) e, rw good none_before, bad),
              λ d'. rw good (ap (◌∷◌ x) (written d')),
            )
      ]
