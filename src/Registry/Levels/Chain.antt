-- ===== src/Registry/Levels/Chain.antt =====
-- The fallback chains of configurations and modes, against a list that is searched in order.
use axonops_schema_registry.Common.{
  String, ◌≡◌, inl, inr, false, List, [], ◌∷◌, ◌++◌, arith, if◌then◌else◌, ℕ_eq, string_eq, ◌==◌,
  ℤ_eq,
}
use axonops_schema_registry.Storage.{Result, ok, err, ConfigRecord}
use axonops_schema_registry.Registry.Backend.{
  Backend, Answer, done, failed, Result-cases, OrMissing, OrMissing-err,
}
use axonops_schema_registry.Registry.Levels.{
  global_context, level_record, get_config, get_config_full,
}
use axonops_schema_registry.Registry.Modes.{resolve_global_mode, get_mode}

-- The answers that a subject, its context and the global context give, in the order of the search.
abbrev pub tiers {ℓ} : {A : Type ℓ} → String → String → A → A → A → List A
tiers registry_ctx subject own context_wide global =
    (if subject == "" then [] else own ∷ [])
    ++ (context_wide ∷ (if registry_ctx == global_context then [] else global ∷ []))

-- The first value of a list of answers.
abbrev pub first_ok {ℓ} : {A : Type ℓ} → List (Result A) → A → A
first_ok [] a = a
first_ok (ok x ∷ rest) a = x
first_ok (err e ∷ rest) a = first_ok rest a

abbrev level_answer : Answer ConfigRecord → Answer String
level_answer (done c) = done c.compatibility_level
level_answer (failed e) = failed e

module _ {S : Type 0} (b : Backend S) (default_config : String) (s : S)
    (registry_ctx subject : String) where
  -- The level that applies is that of the configuration that applies, and both fail together.
  pub get_config-get_config_full :
      get_config b default_config s registry_ctx subject
      ≡ level_answer (get_config_full b default_config s registry_ctx subject)
  unfolding get_config get_config_full
  get_config-get_config_full = ground (arith)

  -- Where the subject's own configuration is there or not found, the configuration that applies is
  -- the first of the subject's, the context's and the global context's, or the default.
  pub get_config_full-first_ok :
      OrMissing (b.get_config s registry_ctx subject)
      → get_config_full b default_config s registry_ctx subject
        ≡ done (
            first_ok
              (tiers registry_ctx subject
                (b.get_config s registry_ctx subject)
                (b.get_global_config s registry_ctx)
                (b.get_global_config s global_context))
              (level_record default_config))
  unfolding get_config_full
  get_config_full-first_ok h = elim (Result-cases (b.get_config s registry_ctx subject)) [
    | inl (c, there) ↦ ground (
      arith,
      there,
      Result-cases (b.get_global_config s registry_ctx),
      Result-cases (b.get_global_config s global_context),
    )
    | inr (e, absent) ↦ ground (
      arith,
      absent,
      OrMissing-err _ e h absent,
      Result-cases (b.get_global_config s registry_ctx),
      Result-cases (b.get_global_config s global_context),
    )
  ]

  -- Where no read of a mode fails but for a missing one, and the kill switch is not set, the mode that
  -- applies is the first of the subject's, the context's and the global context's, or READWRITE.
  pub get_mode-first_ok :
      OrMissing (b.get_mode s registry_ctx subject)
      → OrMissing (b.get_global_mode s registry_ctx)
      → (resolve_global_mode b s == "READONLY_OVERRIDE") ≡ false
      → get_mode b s registry_ctx subject
        ≡ done (
            (first_ok
              (tiers registry_ctx subject
                (b.get_mode s registry_ctx subject)
                (b.get_global_mode s registry_ctx)
                (b.get_global_mode s global_context))
              (record { subject = ""; mode = "READWRITE" })).mode)
  unfolding get_mode
  get_mode-first_ok h k off =
      let own = Result-cases (b.get_mode s registry_ctx subject) in
      let global = Result-cases (b.get_global_mode s global_context) in
      elim (Result-cases (b.get_global_mode s registry_ctx)) [
        | inl (m, there) ↦ elim own [
          | inl (n, found) ↦ ground (arith, off, there, found)
          | inr (x, absent) ↦ ground (arith, off, there, absent, OrMissing-err _ x h absent)
        ]
        | inr (e, gone) ↦ elim own [
          | inl (n, found) ↦ ground (arith, off, gone, OrMissing-err _ e k gone, found, global)
          | inr (x, absent) ↦ ground (
            arith,
            off,
            gone,
            OrMissing-err _ e k gone,
            absent,
            OrMissing-err _ x h absent,
            global,
          )
        ]
      ]
