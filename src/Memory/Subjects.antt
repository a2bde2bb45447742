-- ===== src/Memory/Subjects.antt =====
-- `ListSubjects` and `SubjectExists` agree.
use axonops_schema_registry.Common.{
  sort, insert_sorted, string_leb, get, String, ◌≡◌, refl, ◌∙◌, subst, inl, inr, Bool, false, ◌||◌,
  none, some, List, [], ◌∷◌, arith, Bool-cases, Option-cases, ℕ_eq, string_eq, ◌==◌, ==_iff,
  ==-cases, ℤ, ℤ_eq, Map, IsUnique, IsSorted, sort-IsSorted, string_leb_total, string_leb_trans,
}
use axonops_schema_registry.Memory.State.{
  SubjectVersionInfo, ContextStore, Store, or_zero, get_context,
}
use axonops_schema_registry.Memory.Lookup.{
  has_active, subject_exists, collect_subjects, list_subjects,
}

-- Whether a list of subjects has the subject.
abbrev pub lists : String → List String → Bool
lists subject [] = false
lists subject (a ∷ rest) = a == subject || lists subject rest

lists-insert_sorted :
    (subject a : String) (l : List String)
    → lists subject (insert_sorted string_leb a l) ≡ (a == subject || lists subject l)
unfolding insert_sorted
lists-insert_sorted subject a [] = refl
lists-insert_sorted subject a (b ∷ l) = ground (arith, lists-insert_sorted subject a l)

lists-sort :
    (subject : String) (l : List String) → lists subject (sort string_leb l) ≡ lists subject l
unfolding sort
lists-sort subject [] = refl
lists-sort subject (a ∷ l) =
    ground (arith, lists-insert_sorted subject a (sort string_leb l), lists-sort subject l)

lists-collect_subjects :
    (subject : String) (m : Map String (Map ℤ SubjectVersionInfo))
    → IsUnique m
    → lists subject (collect_subjects false m) ≡ has_active (or_zero (get m subject) [])
unfolding collect_subjects get has_active
lists-collect_subjects subject [] h = refl
lists-collect_subjects subject ((name, versions) ∷ m) h = elim (==-cases name subject) [
  | inl same ↦
      let ih = lists-collect_subjects subject m h.1 in
      let gone : get m subject ≡ none = subst (λ x. get m x ≡ none) same h.0 in
      ground (arith, ih, gone, same, ==_iff name subject, Bool-cases (has_active versions))
  | inr (off, _) ↦
      ground (arith, lists-collect_subjects subject m h.1, off, Bool-cases (has_active versions))
]

-- In a context whose map of subjects has each subject once, the list of the subjects with a version
-- that is not deleted has a subject exactly if `SubjectExists` says that it exists.
pub list_subjects-subject_exists :
    (s : Store) (name subject : String) (cs : ContextStore)
    → get_context s name ≡ some cs
    → IsUnique cs.subject_versions
    → lists subject (list_subjects s name false) ≡ subject_exists s name subject
unfolding list_subjects subject_exists
list_subjects-subject_exists s name subject cs there unique =
    rw (there, list_subjects, subject_exists)
      (lists-sort subject (collect_subjects false cs.subject_versions)
        ∙ lists-collect_subjects subject cs.subject_versions unique)

-- The list of subjects is sorted, with the deleted ones or without, and for any context.
pub list_subjects-IsSorted :
    (s : Store) (name : String) (include_deleted : Bool)
    → IsSorted string_leb (list_subjects s name include_deleted)
unfolding list_subjects
list_subjects-IsSorted s name include_deleted = elim (Option-cases (get_context s name)) [
  | inl absent ↦ rw (absent, list_subjects) tt
  | inr (cs, there) ↦
      rw (there, list_subjects)
        (sort-IsSorted string_leb string_leb_total string_leb_trans
          (collect_subjects include_deleted cs.subject_versions))
]
