-- ===== src/Registry/Modes/Kill.antt =====
-- Which modes block a write, and when a mode may be set.
use axonops_schema_registry.Common.{
  to_upper, String, ◌≡◌, refl, sym, ap, ◌∙◌, ◌≢◌, ◌↔◌, ◌⊎◌, if◌then◌else◌, Option, [], ◌∷◌, inl,
  inr, true, false, false≢true, arith, ℕ_eq, string_eq, ◌==◌, ==_iff, ==-cases, ℤ_eq,
}
use axonops_schema_registry.Storage.{ok, Error}
use axonops_schema_registry.Registry.Backend.{
  Backend, RegistryError, done, failed, pass_write, Result-cases, Answer-cases,
}
use axonops_schema_registry.Registry.Modes.{
  is_valid_mode, resolve_global_mode, get_mode, has_subjects, import_allowed, set_mode,
  check_mode_for_write,
}

readonly_named : ◌≢◌ {A = String} "READONLY" ""
readonly_named p = false≢true ((==_iff "READONLY" "").1 p)

override_named : ◌≢◌ {A = String} "READONLY_OVERRIDE" ""
override_named p = false≢true ((==_iff "READONLY_OVERRIDE" "").1 p)

module _ {S : Type 0} (b : Backend S) (s : S) (registry_ctx subject : String) where
  get_mode_override :
      resolve_global_mode b s ≡ "READONLY_OVERRIDE"
      → get_mode b s registry_ctx subject ≡ done "READONLY_OVERRIDE"
  unfolding get_mode
  get_mode_override h = ground (arith, (==_iff (resolve_global_mode b s) "READONLY_OVERRIDE").1 h)

  -- Where the default context, or with no mode there the global context, is in READONLY_OVERRIDE, each
  -- write to each subject of each context is blocked.
  pub check_mode_for_write_override :
      resolve_global_mode b s ≡ "READONLY_OVERRIDE"
      → check_mode_for_write b s registry_ctx subject ≡ done "READONLY_OVERRIDE"
  unfolding check_mode_for_write
  check_mode_for_write_override h = rw (get_mode_override h, check_mode_for_write) refl

  -- A write is let through exactly if the mode that applies is neither READONLY nor READONLY_OVERRIDE.
  pub check_mode_for_write_iff :
      (mode : String)
      → get_mode b s registry_ctx subject ≡ done mode
      → (check_mode_for_write b s registry_ctx subject ≡ done "")
        ↔ ((mode ≢ "READONLY") × (mode ≢ "READONLY_OVERRIDE"))
  unfolding check_mode_for_write
  check_mode_for_write_iff mode h = ground (
    arith,
    h,
    ==_iff mode "READONLY",
    ==_iff mode "READONLY_OVERRIDE",
    readonly_named,
    override_named,
  )

  -- The subject, or the context where no subject is given, has no subject that is not deleted.
  abbrev pub NoSubjects : Type 0
  NoSubjects =
      ((subject ≡ "") × (b.list_subjects s registry_ctx false ≡ ok []))
      ⊎ ((subject ≢ "") × (b.subject_exists s registry_ctx subject ≡ ok false))

  -- The mode may become IMPORT without force.
  abbrev pub MayImport : Type 0
  MayImport = (get_mode b s registry_ctx subject ≡ done "IMPORT") ⊎ NoSubjects

  -- What the storage makes of a mode.
  abbrev pub written : String → Option Error × S
  written mode =
      if subject == ""
      then b.set_global_mode s registry_ctx (record { subject = ""; mode = mode })
      else b.set_mode s registry_ctx subject (record { subject = ""; mode = mode })

  has_subjects_iff : (has_subjects b s registry_ctx subject ≡ ok false) ↔ NoSubjects
  unfolding has_subjects
  has_subjects_iff = elim (==-cases subject "") [
    | inl none_given ↦
        let given : (subject == "") ≡ true = (==_iff subject "").1 none_given in
        elim (Result-cases (b.list_subjects s registry_ctx false)) [
          | inl ([], e) ↦ (λ h. inl (none_given, e), λ h. ground (arith, given, e))
          | inl (x ∷ l, e) ↦ (
            λ h. absurd (ground (arith, h, given, e)),
            λ h. absurd (ground (arith, h, none_given, e)),
          )
          | inr (x, e) ↦ (
            λ h. absurd (ground (arith, h, given, e)),
            λ h. absurd (ground (arith, h, none_given, e)),
          )
        ]
    | inr (given, named) ↦
        (λ h. inr (named, ground (arith, h, given)), λ h. ground (arith, h, named, given))
  ]

  import_allowed_iff : (import_allowed b s registry_ctx subject ≡ done tt) ↔ MayImport
  unfolding import_allowed
  import_allowed_iff = elim (Answer-cases (get_mode b s registry_ctx subject)) [
    | inl (current, now) ↦ elim (==-cases current "IMPORT") [
      | inl same ↦ (
        λ h. inl (now ∙ ap done same),
        λ h. ground (arith, now, (==_iff current "IMPORT").1 same),
      )
      | inr (off, other) ↦ (
        λ h. inr (has_subjects_iff.0 (ground (arith, h, now, off))),
        λ h. elim h [
          | inl set ↦ absurd (other (ground (arith, now, set)))
          | inr free ↦ ground (arith, now, off, has_subjects_iff.1 free)
        ],
      )
    ]
    | inr (e, wrong) ↦ (
      λ h. inr (has_subjects_iff.0 (ground (arith, h, wrong))),
      λ h. elim h [
        | inl set ↦ absurd (cc (sym wrong ∙ set))
        | inr free ↦ ground (arith, wrong, has_subjects_iff.1 free)
      ],
    )
  ]

  -- Without force, the mode IMPORT, in any case of letters, is given to the storage where it is the
  -- mode that applies already, or where the subject, or the context where no subject is given, has
  -- no subject that is not deleted. Everywhere else nothing is written and the answer is an error.
  pub set_mode_import :
      (mode : String)
      → to_upper mode ≡ "IMPORT"
      → (MayImport
          × (set_mode b s registry_ctx subject mode false
              ≡ (pass_write (written "IMPORT").0 tt, (written "IMPORT").1)))
        ⊎ ((¬ MayImport)
            × (e : RegistryError) × (set_mode b s registry_ctx subject mode false ≡ (failed e, s)))
  unfolding set_mode is_valid_mode
  set_mode_import mode up = elim (Answer-cases (import_allowed b s registry_ctx subject)) [
    | inl (tt, allowed) ↦ inl (
      import_allowed_iff.0 allowed,
      rw (up, allowed) (ap (λ m. (pass_write (written m).0 tt, (written m).1)) up),
    )
    | inr (e, refused) ↦
        inr ((λ h. absurd (cc (sym (import_allowed_iff.1 h) ∙ refused))), e, rw (up, refused) refl)
  ]
