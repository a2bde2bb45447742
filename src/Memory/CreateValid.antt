-- ===== src/Memory/CreateValid.antt =====
-- `CreateSchema` keeps a context well formed.
use axonops_schema_registry.Common.{
  inc64, get, ℕ, String, ◌≡◌, refl, sym, ◌≢◌, inl, inr, true, none, arith, Option-cases, ℕ_eq,
  string_eq, ==_iff, ==_self, ==-cases, ℤ, ℤ_eq, ◌<ℤ◌, max_int64, lt-inc64, get-put,
}
use axonops_schema_registry.Storage.{SchemaRecord}
use axonops_schema_registry.Memory.State.{ContextStore, versions_of, uses_of, last_version}
use axonops_schema_registry.Memory.Lookup.{is_empty}
use axonops_schema_registry.Memory.Create.{
  ensure_subject, find_duplicate, content, assign_id, new_info, append_version, create_in,
}
use axonops_schema_registry.Memory.Invariant.{
  content_print, IsConsistent, IsValid, SameView, SameView-IsValid,
}
use axonops_schema_registry.Memory.Register.{
  is_empty-add_version, content_print-add_version, add_version-IsConsistent,
  ensure_subject-SameView, content_print-with_content, with_content-IsConsistent, has_content_with,
  with_counter, with_counter-IsConsistent, above_counter_absent,
}

module _ (cs : ContextStore) (r : SchemaRecord) (id : ℤ) (now : ℕ) where
  abbrev new_version : ℤ
  new_version = inc64 (last_version cs r.subject)

  append_version-IsConsistent :
      IsConsistent cs
      → content_print cs id ≢ none
      → last_version cs r.subject <ℤ max_int64
      → IsConsistent (append_version cs r id now).1
  unfolding append_version
  append_version-IsConsistent h content room =
      let up = lt-inc64 (last_version cs r.subject) room in
      add_version-IsConsistent (with_counter cs r.subject new_version) r.subject new_version
        (new_info id new_version now r)
        (with_counter-IsConsistent cs r.subject new_version h (omega (arith, up)))
        (above_counter_absent cs r.subject new_version h up) refl
        (omega (arith, up, h.not_negative r.subject))
        (ground (
          arith,
          get-put cs.next_subject_version r.subject r.subject new_version,
          ==_self r.subject,
        ))
        content

  append_version-referenced :
      ((i : ℤ) → i ≢ id → is_empty (uses_of cs i) ≡ true → content_print cs i ≡ none)
      → (i : ℤ) → is_empty (uses_of (append_version cs r id now).1 i) ≡ true
      → content_print (append_version cs r id now).1 i ≡ none
  unfolding append_version
  append_version-referenced h i p =
      let counted = with_counter cs r.subject new_version in
      let info = new_info id new_version now r in
      let emptied = is_empty-add_version counted r.subject new_version info i in
      let kept = content_print-add_version counted r.subject new_version info i in
      elim (==-cases id i) [
        | inl same ↦ absurd (ground (arith, emptied, ==_iff id i))
        | inr other ↦ ground (arith, emptied, kept, h i (λ q. other.1 (sym q)), other.0)
      ]

-- The content that `assign_id` answers with is there, and nothing else lacks a use.
record IsAssigned (cs : ContextStore) (id : ℤ) : Type 0 where
  consistent : IsConsistent cs
  content_there : content_print cs id ≢ none
  others_used : (i : ℤ) → i ≢ id → is_empty (uses_of cs i) ≡ true → content_print cs i ≡ none

assign_id-IsAssigned :
    (cs : ContextStore) (r : SchemaRecord)
    → IsValid cs
    → cs.next_id <ℤ max_int64
    → IsAssigned (assign_id cs r).1 (assign_id cs r).0
unfolding assign_id
assign_id-IsAssigned cs r v room = elim (Option-cases (get cs.fingerprints r.fingerprint)) [
  | inl unseen ↦
      rw (unseen, assign_id)
        (record {
          consistent = with_content-IsConsistent cs r v.consistent unseen room;
          content_there = has_content_with cs r;
          others_used = λ i other p. ground (
            arith,
            content_print-with_content cs r i,
            v.referenced i,
            ==_iff cs.next_id i,
            ==_iff i cs.next_id,
          );
        })
  | inr (id, seen) ↦
      rw (seen, assign_id)
        (record {
          consistent = v.consistent;
          content_there = λ p. ground (arith, v.consistent.known r.fingerprint id);
          others_used = λ i other. v.referenced i;
        })
]

pub last_version-assign_id :
    (cs : ContextStore) (r : SchemaRecord) (t : String)
    → last_version (assign_id cs r).1 t ≡ last_version cs t
unfolding assign_id
last_version-assign_id cs r t = ground arith

-- A registration, whether it adds a version or finds a duplicate, keeps a well-formed context well
-- formed, while the ID counter and the version counter of the subject are below the largest 64-bit
-- integer.
pub create_in-IsValid :
    (cs : ContextStore) (now later : ℕ) (r : SchemaRecord)
    → IsValid cs
    → cs.next_id <ℤ max_int64
    → last_version cs r.subject <ℤ max_int64
    → IsValid (create_in cs now later r).2
unfolding create_in
create_in-IsValid cs now later r v room_id room =
    elim (Option-cases (find_duplicate made.schemas r (versions_of made r.subject))) [
      | inr (info, found) ↦ rw (found, create_in) valid
      | inl fresh ↦
          rw (fresh, create_in)
            (record {
              consistent =
                  append_version-IsConsistent assigned.1 r assigned.0 now a.consistent
                    a.content_there
                    (rw (last_version-assign_id made r r.subject, view.counters r.subject) room);
              referenced = append_version-referenced assigned.1 r assigned.0 now a.others_used;
            })
    ]
  where
    made : ContextStore
    made = ensure_subject cs r.subject

    view : SameView cs made
    view = ensure_subject-SameView cs r.subject

    valid : IsValid made
    valid = SameView-IsValid view v

    assigned : ℤ × ContextStore
    assigned = assign_id made r

    a : IsAssigned assigned.1 assigned.0
    a = assign_id-IsAssigned made r valid (rw view.next room_id)
