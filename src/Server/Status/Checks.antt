-- ===== src/Server/Status/Checks.antt =====
-- BaseStatusAction.run of pysoa/server/action/status.py.
use pysoa.Prelude.{
  String, ◌≡◌, refl, ◌∙◌, Bool, true, false, not, Option, none, some, List, [], ◌∷◌, ◌++◌,
  if◌then◌else◌, append_assoc, append-nil, Bool-cases, inl, inr,
}
use pysoa.Value.{Fields}
use pysoa.Server.Status.{
  CheckMethodStatus, Diagnostics, problems, Check, Versions, status, passed, parcel, run_checks,
  is_verbose, build_of, run,
}

-- the code and the description of the problems that are errors, or of those that are not
abbrev pub sorted : Bool → List CheckMethodStatus → List (String × String)
sorted errors [] = []
sorted errors (p ∷ ps) =
    if (if errors then p.is_error else not p.is_error)
    then (p.code, p.description) ∷ sorted errors ps
    else sorted errors ps

sorted-append :
    (errors : Bool) (ps qs : List CheckMethodStatus)
    → sorted errors (ps ++ qs) ≡ sorted errors ps ++ sorted errors qs
sorted-append errors [] qs = refl
sorted-append errors (p ∷ ps) qs =
    elim (Bool-cases (if errors then p.is_error else not p.is_error)) [
      | inl e ↦ rw (e, sorted-append errors ps qs) refl
      | inr e ↦ rw (e, sorted-append errors ps qs) refl
    ]

parcel-sorted :
    (ps : List CheckMethodStatus) (errors warnings : List (String × String))
    → parcel ps (errors, warnings) ≡ (errors ++ sorted true ps, warnings ++ sorted false ps)
unfolding parcel
parcel-sorted [] errors warnings = rw (append-nil errors, append-nil warnings) refl
parcel-sorted (p ∷ ps) errors warnings = elim (Bool-cases p.is_error) [
  | inl e ↦ rw e (
      parcel-sorted ps (errors ++ (p.code, p.description) ∷ []) warnings
      ∙ rw (append_assoc errors ((p.code, p.description) ∷ []) (sorted true ps)) refl)
  | inr e ↦ rw e (
      parcel-sorted ps errors (warnings ++ (p.code, p.description) ∷ [])
      ∙ rw (append_assoc warnings ((p.code, p.description) ∷ []) (sorted false ps)) refl)
]

module _ {W : Type 0} where
  -- What the checks report, one after the other, if each of them returns problems: all these, and
  -- the diagnostics and the world behind them.
  abbrev pub Reports :
      List (Check W) → Diagnostics → W → List CheckMethodStatus → Diagnostics → W → Type 0
  Reports [] d w ps d' w' = (ps ≡ []) × (d ≡ d') × (w ≡ w')
  Reports (check ∷ checks) d w ps d' w' =
      (first : List CheckMethodStatus) × (rest : List CheckMethodStatus) × (ps ≡ first ++ rest)
      × ((check d w).0 ≡ problems first)
      × Reports checks (check d w).1 (check d w).2 rest d' w'

  run_checks-sorted :
      (checks : List (Check W)) (errors warnings : List (String × String)) (d d' : Diagnostics)
      (w w' : W) (ps : List CheckMethodStatus)
      → Reports checks d w ps d' w'
      → run_checks checks (errors, warnings) d w
        ≡ (passed (errors ++ sorted true ps, warnings ++ sorted false ps), d', w')
  unfolding run_checks
  run_checks-sorted [] errors warnings d d' w w' ps (none_found, same, here) =
      rw (none_found, same, here) (rw (append-nil errors, append-nil warnings) refl)
  run_checks-sorted (check ∷ checks) errors warnings d d' w w' ps (first, rest, e, now, later) =
      rw (now, parcel-sorted first errors warnings)
        (run_checks-sorted checks (errors ++ sorted true first) (warnings ++ sorted false first)
            (check d w).1 d' (check d w).2 w' rest later
          ∙ rw
              (
                e,
                sorted-append true first rest,
                sorted-append false first rest,
                append_assoc errors (sorted true first) (sorted true rest),
                append_assoc warnings (sorted false first) (sorted false rest),
              )
              refl)

  -- With a body that says that `verbose` is anything but true, run calls no check method: it leaves
  -- the world as it was and gives no healthcheck.
  pub run_quiet :
      (versions : Versions) (build : Option String) (checks : List (Check W)) (body : Fields)
      (w : W)
      → is_verbose body ≡ false
      → run versions build checks body w
        ≡ (status (record { versions = versions; build = build_of build; healthcheck = none }), w)
  unfolding run
  run_quiet versions build checks body w quiet = rw quiet refl

  -- With an empty body, or one whose `verbose` is true or missing, and if each check returns
  -- problems, run calls every check in its order and gives all that they report, in order, the errors
  -- apart from the warnings, and the diagnostics that they have written.
  pub run-sorted :
      (versions : Versions) (build : Option String) (checks : List (Check W)) (body : Fields)
      (w w' : W) (ps : List CheckMethodStatus) (d : Diagnostics)
      → is_verbose body ≡ true
      → Reports checks [] w ps d w'
      → run versions build checks body w ≡ (
        status (record {
          versions = versions;
          build = build_of build;
          healthcheck =
              some
                (record { errors = sorted true ps; warnings = sorted false ps; diagnostics = d });
        }),
        w',
      )
  unfolding run
  run-sorted versions build checks body w w' ps d verbose reports =
      rw (verbose, run_checks-sorted checks [] [] [] d w w' ps reports) refl
