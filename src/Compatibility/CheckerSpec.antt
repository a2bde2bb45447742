-- ===== src/Compatibility/CheckerSpec.antt =====
-- What `Checker.Check` answers, without its loops.
use axonops_schema_registry.Common.{
  get, ℕ, ◌+◌, String, ◌≡◌, refl, sym, subst, ◌≢◌, inl, inr, Bool, true, false, not, ◌&&◌, ◌||◌,
  some, List, [], ◌∷◌, arith, if◌then◌else◌, ◌==◌, ℕ_eq, string_eq, ==-cases, ℤ_eq,
}
use axonops_schema_registry.Compatibility.Result.{
  Message, against, CheckResult, new_compatible_result, add_message,
}
use axonops_schema_registry.Compatibility.Mode.{
  Mode, mode_none, mode_backward, mode_backward_transitive, mode_forward, mode_forward_transitive,
  mode_full, mode_full_transitive, is_transitive, requires_backward, requires_forward,
}
use axonops_schema_registry.Compatibility.Checker.{
  SchemaWithRefs, SchemaChecker, Checkers, add_each, add_failures, check_one, check_each, last_only,
  schemas_to_check, check,
}

-- A failed check says why. `Check` drops a failure that has no message.
abbrev pub HasReasons : SchemaChecker → Type 0
HasReasons checker =
    (reader writer : SchemaWithRefs)
    → (checker reader writer).is_compatible ≡ false
    → (checker reader writer).messages ≢ []

-- One pair passes in the directions that the mode requires.
abbrev pub passes : Mode → SchemaChecker → SchemaWithRefs → SchemaWithRefs → Bool
passes mode checker new_schema existing =
    (not (requires_backward mode) || (checker new_schema existing).is_compatible)
    && (not (requires_forward mode) || (checker existing new_schema).is_compatible)

abbrev pub all_pass : Mode → SchemaChecker → SchemaWithRefs → List SchemaWithRefs → Bool
all_pass mode checker new_schema [] = true
all_pass mode checker new_schema (existing ∷ rest) =
    passes mode checker new_schema existing && all_pass mode checker new_schema rest

add_each-incompatible :
    (result : CheckResult) (direction : String) (n : ℕ) (l : List Message)
    → result.is_compatible ≡ false
    → (add_each result direction n l).is_compatible ≡ false
unfolding add_each add_message
add_each-incompatible result direction n [] h = h
add_each-incompatible result direction n (m ∷ l) h =
    add_each-incompatible (add_message result (against direction n m)) direction n l refl

add_each_cons :
    (result : CheckResult) (direction : String) (n : ℕ) (m : Message) (l : List Message)
    → (add_each result direction n (m ∷ l)).is_compatible ≡ false
unfolding add_each add_message
add_each_cons result direction n m l =
    add_each-incompatible (add_message result (against direction n m)) direction n l refl

add_failures_lem :
    (result : CheckResult) (direction : String) (n : ℕ) (c : CheckResult)
    → (c.is_compatible ≡ false → c.messages ≢ [])
    → (add_failures result direction n c).is_compatible ≡ (result.is_compatible && c.is_compatible)
unfolding add_failures
add_failures_lem result direction n c why = go c.is_compatible c.messages refl refl
  where
    go :
        (b : Bool) (l : List Message)
        → c.is_compatible ≡ b
        → c.messages ≡ l
        → (add_failures result direction n c).is_compatible
          ≡ (result.is_compatible && c.is_compatible)
    go true l e f = ground (arith, e)
    go false [] e f = absurd (why e f)
    go false (m ∷ l) e f = ground (arith, e, f, add_each_cons result direction n m l)

check_one_lem :
    (mode : Mode) (checker : SchemaChecker) (new_schema : SchemaWithRefs) (i : ℕ)
    (existing : SchemaWithRefs) (result : CheckResult)
    → HasReasons checker
    → (check_one mode checker new_schema i existing result).is_compatible
      ≡ (result.is_compatible && passes mode checker new_schema existing)
unfolding check_one
check_one_lem mode checker new_schema i existing result why =
    let back = checker new_schema existing in
    let forth = checker existing new_schema in
    let first = add_failures result "BACKWARD" (i + 1) back in
    ground (
      arith,
      add_failures_lem result "BACKWARD" (i + 1) back (why new_schema existing),
      add_failures_lem result "FORWARD" (i + 1) forth (why existing new_schema),
      add_failures_lem first "FORWARD" (i + 1) forth (why existing new_schema),
    )

check_each_lem :
    (mode : Mode) (checker : SchemaChecker) (new_schema : SchemaWithRefs) (i : ℕ)
    (l : List SchemaWithRefs) (result : CheckResult)
    → HasReasons checker
    → (check_each mode checker new_schema i l result).is_compatible
      ≡ (result.is_compatible && all_pass mode checker new_schema l)
unfolding check_each
check_each_lem mode checker new_schema i [] result why = ground arith
check_each_lem mode checker new_schema i (existing ∷ l) result why = ground (
  arith,
  check_one_lem mode checker new_schema i existing result why,
  check_each_lem mode checker new_schema (i + 1) l
      (check_one mode checker new_schema i existing result) why,
)

nothing_to_check :
    (mode : Mode) (checker : SchemaChecker) (new_schema : SchemaWithRefs)
    → all_pass mode checker new_schema (schemas_to_check mode []) ≡ true
unfolding schemas_to_check last_only
nothing_to_check mode checker new_schema = ground arith

-- With a registered checker that gives a reason for each failure, a new schema is compatible
-- exactly if the mode is NONE, or each pair that the mode looks at passes in each direction that
-- the mode requires.
pub check-is_compatible :
    (c : Checkers) (mode : Mode) (schema_type : String) (checker : SchemaChecker)
    (new_schema : SchemaWithRefs) (existing : List SchemaWithRefs)
    → get c schema_type ≡ some checker
    → HasReasons checker
    → (check c mode schema_type new_schema existing).is_compatible
      ≡ (mode == mode_none || all_pass mode checker new_schema (schemas_to_check mode existing))
unfolding check new_compatible_result
check-is_compatible c mode schema_type checker new_schema [] known why =
    rw (nothing_to_check mode checker new_schema) (ground arith)
check-is_compatible c mode schema_type checker new_schema (a ∷ rest) known why = ground (
  arith,
  known,
  check_each_lem mode checker new_schema 0 (schemas_to_check mode (a ∷ rest)) new_compatible_result
      why,
)

last-all_pass :
    (mode : Mode) (checker : SchemaChecker) (new_schema : SchemaWithRefs) (l : List SchemaWithRefs)
    → all_pass mode checker new_schema l ≡ true
    → all_pass mode checker new_schema (last_only l) ≡ true
unfolding last_only
last-all_pass mode checker new_schema [] h = refl
last-all_pass mode checker new_schema (a ∷ []) h = h
last-all_pass mode checker new_schema (a ∷ b ∷ l) h =
    last-all_pass mode checker new_schema (b ∷ l) (ground arith)

same_directions :
    (m n : Mode) (checker : SchemaChecker) (new_schema : SchemaWithRefs) (l : List SchemaWithRefs)
    → requires_backward m ≡ requires_backward n
    → requires_forward m ≡ requires_forward n
    → all_pass m checker new_schema l ≡ all_pass n checker new_schema l
same_directions m n checker new_schema [] b f = refl
same_directions m n checker new_schema (a ∷ l) b f =
    rw (b, f, same_directions m n checker new_schema l b f)

full_splits :
    (checker : SchemaChecker) (new_schema : SchemaWithRefs) (l : List SchemaWithRefs)
    → all_pass mode_full checker new_schema l
      ≡ (all_pass mode_backward checker new_schema l && all_pass mode_forward checker new_schema l)
unfolding requires_backward requires_forward
full_splits checker new_schema [] = refl
full_splits checker new_schema (a ∷ l) = ground (arith, full_splits checker new_schema l)

-- The mode that looks at the latest version only, in the same directions.
abbrev pub latest_mode : Mode → Mode
latest_mode mode =
    if mode == mode_backward_transitive
    then mode_backward
    else if mode == mode_forward_transitive
    then mode_forward
    else if mode == mode_full_transitive
    then mode_full
    else mode

module _ (c : Checkers) (schema_type : String) (checker : SchemaChecker)
    (new_schema : SchemaWithRefs) (existing : List SchemaWithRefs)
    (known : get c schema_type ≡ some checker) (why : HasReasons checker) where
  abbrev verdict : Mode → Bool
  verdict mode = (check c mode schema_type new_schema existing).is_compatible

  abbrev spec : Mode → Bool
  spec mode = mode == mode_none || all_pass mode checker new_schema (schemas_to_check mode existing)

  verdict-eq-spec : (mode : Mode) → verdict mode ≡ spec mode
  verdict-eq-spec mode =
      check-is_compatible c mode schema_type checker new_schema existing known why

  weaken :
      (m n : Mode)
      → is_transitive m ≡ true
      → is_transitive n ≡ false
      → (m == mode_none) ≡ false
      → requires_backward n ≡ requires_backward m
      → requires_forward n ≡ requires_forward m
      → verdict m ≡ true
      → verdict n ≡ true
  unfolding schemas_to_check
  weaken m n every latest some_mode b f p =
      let all : all_pass m checker new_schema existing ≡ true =
        ground (arith, verdict-eq-spec m, p, some_mode, every) in
      ground (
        arith,
        verdict-eq-spec n,
        latest,
        same_directions n m checker new_schema (last_only existing) b f,
        last-all_pass m checker new_schema existing all,
      )

  weaken_three :
      (verdict mode_backward_transitive ≡ true → verdict mode_backward ≡ true)
      × (verdict mode_forward_transitive ≡ true → verdict mode_forward ≡ true)
      × (verdict mode_full_transitive ≡ true → verdict mode_full ≡ true)
  unfolding is_transitive requires_backward requires_forward
  weaken_three = (
    weaken mode_backward_transitive mode_backward refl refl refl refl refl,
    weaken mode_forward_transitive mode_forward refl refl refl refl refl,
    weaken mode_full_transitive mode_full refl refl refl refl refl,
  )

  -- With a registered checker that gives a reason for each failure, what passes in a mode passes in
  -- the mode that looks in the same directions at the latest version only.
  pub transitive_implies_latest :
      (mode : Mode) → verdict mode ≡ true → verdict (latest_mode mode) ≡ true
  transitive_implies_latest mode p = elim (==-cases mode mode_backward_transitive) [
    | inl b ↦
        subst (λ m. verdict (latest_mode m) ≡ true) (sym b)
          (weaken_three.0 (subst (λ m. verdict m ≡ true) b p))
    | inr (not_b, _) ↦ elim (==-cases mode mode_forward_transitive) [
      | inl f ↦
          subst (λ m. verdict (latest_mode m) ≡ true) (sym f)
            (weaken_three.1 (subst (λ m. verdict m ≡ true) f p))
      | inr (not_f, _) ↦ elim (==-cases mode mode_full_transitive) [
        | inl u ↦
            subst (λ m. verdict (latest_mode m) ≡ true) (sym u)
              (weaken_three.2 (subst (λ m. verdict m ≡ true) u p))
        | inr (not_u, _) ↦ rw (not_b, not_f, not_u, latest_mode) p
      ]
    ]
  ]

  -- With a registered checker that gives a reason for each failure, a new schema passes in the mode
  -- FULL exactly if it passes in BACKWARD and in FORWARD.
  pub full-eq-both : verdict mode_full ≡ (verdict mode_backward && verdict mode_forward)
  unfolding schemas_to_check is_transitive
  full-eq-both =
      rw (verdict-eq-spec mode_full, verdict-eq-spec mode_backward, verdict-eq-spec mode_forward)
        (full_splits checker new_schema (last_only existing))
