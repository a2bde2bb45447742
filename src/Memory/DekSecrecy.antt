-- ===== src/Memory/DekSecrecy.antt =====
-- The plaintext of a data encryption key is never stored.
use axonops_schema_registry.Common.{
  get, delete, put, ℕ, String, ◌≡◌, refl, inl, inr, Bool, true, false, Option, none, some, [], ◌∷◌,
  arith, Bool-cases, Option-cases, ◌==◌, ℕ_eq, string_eq, ℤ, negsuc, ℤ_eq, Map, AllValues,
  AllValues-put, AllValues-delete, AllValues-get,
}
use axonops_schema_registry.Storage.{Error, dek_not_found, KekRecord, DekRecord}
use axonops_schema_registry.Memory.State.{Store, or_zero}
use axonops_schema_registry.Memory.Keks.{create_kek, update_kek, delete_kek, undelete_kek}
use axonops_schema_registry.Memory.Deks.{
  dek_versions, set_dek_versions, drop_dek_subject, choose_version, create_dek, has_algorithm,
  any_dek, mark_dek, mark_deks, remove_deks, keep_deks, delete_all_deks, delete_one_dek, delete_dek,
  any_deleted_dek, restore_deks, undelete_all_deks, undelete_one_dek, undelete_dek, update_dek,
}

abbrev pub IsClean : DekRecord → Type 0
IsClean dek = dek.key_material ≡ ""

abbrev CleanVersions : Map ℤ DekRecord → Type 0
CleanVersions = AllValues IsClean

abbrev CleanSubjects : Map String (Map ℤ DekRecord) → Type 0
CleanSubjects = AllValues CleanVersions

-- Each stored key is without its plaintext.
abbrev pub NoPlaintext : Store → Type 0
NoPlaintext s = AllValues CleanSubjects s.deks

or_zero-CleanSubjects :
    (s : Store) (kek_name : String)
    → NoPlaintext s
    → CleanSubjects (or_zero (get s.deks kek_name) [])
or_zero-CleanSubjects s kek_name h = elim (Option-cases (get s.deks kek_name)) [
  | inl absent ↦ rw (absent, or_zero) tt
  | inr (m, there) ↦ rw (there, or_zero) (AllValues-get CleanSubjects s.deks kek_name m h there)
]

set_dek_versions-NoPlaintext :
    (s : Store) (kek_name subject : String) (m : Map ℤ DekRecord)
    → NoPlaintext s
    → CleanVersions m
    → NoPlaintext (set_dek_versions s kek_name subject m)
set_dek_versions-NoPlaintext s kek_name subject m h clean =
    AllValues-put CleanSubjects s.deks kek_name _ h (
      AllValues-put CleanVersions (or_zero (get s.deks kek_name) []) subject m
        (or_zero-CleanSubjects s kek_name h) clean)

drop_dek_subject-NoPlaintext :
    (s : Store) (kek_name subject : String)
    → NoPlaintext s
    → NoPlaintext (drop_dek_subject s kek_name subject)
drop_dek_subject-NoPlaintext s kek_name subject h =
    AllValues-put CleanSubjects s.deks kek_name _ h (
      AllValues-delete CleanVersions (or_zero (get s.deks kek_name) []) subject
        (or_zero-CleanSubjects s kek_name h))

dek_versions-clean :
    (s : Store) (kek_name subject : String) (m : Map ℤ DekRecord)
    → NoPlaintext s
    → dek_versions s kek_name subject ≡ some m
    → CleanVersions m
dek_versions-clean s kek_name subject m h p = elim (Option-cases (get s.deks kek_name)) [
  | inl absent ↦ absurd (ground (arith, p, absent))
  | inr (subjects, there) ↦
      AllValues-get CleanVersions subjects subject m
        (AllValues-get CleanSubjects s.deks kek_name subjects h there) (ground (arith, p, there))
]

mark_deks-clean :
    (now : ℕ) (algorithm : String) (m : Map ℤ DekRecord)
    → CleanVersions m
    → CleanVersions (mark_deks now algorithm m)
unfolding mark_deks
mark_deks-clean now algorithm [] h = tt
mark_deks-clean now algorithm ((v, dek) ∷ m) h =
    (ground (arith, h.0), mark_deks-clean now algorithm m h.1)

restore_deks-clean :
    (now : ℕ) (algorithm : String) (m : Map ℤ DekRecord)
    → CleanVersions m
    → CleanVersions (restore_deks now algorithm m)
unfolding restore_deks
restore_deks-clean now algorithm [] h = tt
restore_deks-clean now algorithm ((v, dek) ∷ m) h =
    (ground (arith, h.0), restore_deks-clean now algorithm m h.1)

remove_deks-clean :
    (algorithm : String) (m : Map ℤ DekRecord)
    → CleanVersions m
    → CleanVersions (remove_deks algorithm m)
unfolding remove_deks
remove_deks-clean algorithm [] h = tt
remove_deks-clean algorithm ((v, dek) ∷ m) h = elim (Bool-cases (has_algorithm algorithm dek)) [
  | inl gone ↦ rw gone (remove_deks-clean algorithm m h.1)
  | inr kept ↦ rw kept (h.0, remove_deks-clean algorithm m h.1)
]

keep_deks-NoPlaintext :
    (s : Store) (kek_name subject : String) (m : Map ℤ DekRecord)
    → NoPlaintext s
    → CleanVersions m
    → NoPlaintext (keep_deks s kek_name subject m)
keep_deks-NoPlaintext s kek_name subject [] h clean =
    drop_dek_subject-NoPlaintext s kek_name subject h
keep_deks-NoPlaintext s kek_name subject (p ∷ m) h clean =
    set_dek_versions-NoPlaintext s kek_name subject (p ∷ m) h clean

-- The methods that change the stored encryption keys.
pub data KeyStep : Store → Store → Type 0 where
  create_dek_step : (s : Store) (now : ℕ) (dek : DekRecord) → KeyStep s (create_dek s now dek).2
  delete_dek_step :
      (s : Store) (now : ℕ) (kek_name subject : String) (version : ℤ) (algorithm : String)
      (permanent : Bool)
      → KeyStep s (delete_dek s now kek_name subject version algorithm permanent).1
  undelete_dek_step :
      (s : Store) (now : ℕ) (kek_name subject : String) (version : ℤ) (algorithm : String)
      → KeyStep s (undelete_dek s now kek_name subject version algorithm).1
  update_dek_step : (s : Store) (dek : DekRecord) → KeyStep s (update_dek s dek).1
  create_kek_step : (s : Store) (now : ℕ) (kek : KekRecord) → KeyStep s (create_kek s now kek).1
  update_kek_step : (s : Store) (now : ℕ) (kek : KekRecord) → KeyStep s (update_kek s now kek).1
  delete_kek_step :
      (s : Store) (now : ℕ) (name : String) (permanent : Bool)
      → KeyStep s (delete_kek s now name permanent).1
  undelete_kek_step : (s : Store) (now : ℕ) (name : String) → KeyStep s (undelete_kek s now name).1

or_zero-clean :
    (s : Store) (kek_name subject : String)
    → NoPlaintext s
    → CleanVersions (or_zero (dek_versions s kek_name subject) [])
or_zero-clean s kek_name subject h = elim (Option-cases (dek_versions s kek_name subject)) [
  | inl absent ↦ rw (absent, or_zero) tt
  | inr (m, there) ↦ rw (there, or_zero) (dek_versions-clean s kek_name subject m h there)
]

create_dek-NoPlaintext :
    (s : Store) (now : ℕ) (dek : DekRecord) → NoPlaintext s → NoPlaintext (create_dek s now dek).2
unfolding create_dek
create_dek-NoPlaintext s now dek h =
    let m = or_zero (dek_versions s dek.kek_name dek.subject) [] in
    let version = choose_version m dek.version in
    let clean = or_zero-clean s dek.kek_name dek.subject h in
    elim (Option-cases (get s.keks dek.kek_name)) [
      | inl absent ↦ rw (absent, create_dek) h
      | inr (kek, there) ↦ elim (Option-cases (get m version)) [
        | inr (old, taken) ↦
            rw (there, taken, create_dek)
              (set_dek_versions-NoPlaintext s dek.kek_name dek.subject m h clean)
        | inl free ↦
            rw (there, free, create_dek)
              (set_dek_versions-NoPlaintext s dek.kek_name dek.subject _ h
                (AllValues-put IsClean m version _ clean refl))
      ]
    ]

-- A method that works on the version map of a key and subject, where there is one.
on_versions :
    (s : Store) (kek_name subject : String) (f : Map ℤ DekRecord → Option Error × Store)
    → NoPlaintext s
    → ((m : Map ℤ DekRecord) → CleanVersions m → NoPlaintext (f m).1)
    → NoPlaintext
        (elim (dek_versions s kek_name subject) as (λ _. Option Error × Store) [
          | none ↦ (some dek_not_found, s)
          | some m ↦ f m
        ]).1
on_versions s kek_name subject f h k = elim (Option-cases (dek_versions s kek_name subject)) [
  | inl absent ↦ rw absent h
  | inr (m, there) ↦ rw there (k m (dek_versions-clean s kek_name subject m h there))
]

delete_all-NoPlaintext :
    (s : Store) (now : ℕ) (kek_name subject algorithm : String) (permanent : Bool)
    (m : Map ℤ DekRecord)
    → NoPlaintext s
    → CleanVersions m
    → NoPlaintext (delete_all_deks s now kek_name subject algorithm permanent m).1
unfolding delete_all_deks
delete_all-NoPlaintext s now kek_name subject algorithm permanent m h clean =
    elim (Bool-cases (any_dek algorithm m)) [
      | inr nothing ↦ rw (nothing, delete_all_deks) h
      | inl some_found ↦ elim (Bool-cases permanent) [
        | inl p ↦
            rw (some_found, p, delete_all_deks)
              (keep_deks-NoPlaintext s kek_name subject (remove_deks algorithm m) h
                (remove_deks-clean algorithm m clean))
        | inr p ↦
            rw (some_found, p, delete_all_deks)
              (set_dek_versions-NoPlaintext s kek_name subject (mark_deks now algorithm m) h
                (mark_deks-clean now algorithm m clean))
      ]
    ]

-- One stored key is replaced by one that is also without its plaintext.
replace-NoPlaintext :
    (s : Store) (kek_name subject : String) (m : Map ℤ DekRecord) (version : ℤ) (dek : DekRecord)
    → NoPlaintext s
    → CleanVersions m
    → IsClean dek
    → NoPlaintext (set_dek_versions s kek_name subject (put m version dek))
replace-NoPlaintext s kek_name subject m version dek h clean d =
    set_dek_versions-NoPlaintext s kek_name subject (put m version dek) h
      (AllValues-put IsClean m version dek clean d)

delete_one-NoPlaintext :
    (s : Store) (now : ℕ) (kek_name subject : String) (version : ℤ) (algorithm : String)
    (permanent : Bool) (m : Map ℤ DekRecord)
    → NoPlaintext s
    → CleanVersions m
    → NoPlaintext (delete_one_dek s now kek_name subject version algorithm permanent m).1
unfolding delete_one_dek
delete_one-NoPlaintext s now kek_name subject version algorithm permanent m h clean =
    elim (Option-cases (get m version)) [
      | inl absent ↦ rw (absent, delete_one_dek) h
      | inr (dek, there) ↦ elim (Bool-cases (has_algorithm algorithm dek)) [
        | inr other ↦ rw (there, other, delete_one_dek) h
        | inl same ↦ elim (Bool-cases permanent) [
          | inl p ↦
              rw (there, same, p, delete_one_dek)
                (keep_deks-NoPlaintext s kek_name subject (delete m version) h
                  (AllValues-delete IsClean m version clean))
          | inr p ↦
              rw (there, same, p, delete_one_dek)
                (replace-NoPlaintext s kek_name subject m version (mark_dek now true dek) h clean
                  (AllValues-get IsClean m version dek clean there))
        ]
      ]
    ]

undelete_one-NoPlaintext :
    (s : Store) (now : ℕ) (kek_name subject : String) (version : ℤ) (algorithm : String)
    (m : Map ℤ DekRecord)
    → NoPlaintext s
    → CleanVersions m
    → NoPlaintext (undelete_one_dek s now kek_name subject version algorithm m).1
unfolding undelete_one_dek
undelete_one-NoPlaintext s now kek_name subject version algorithm m h clean =
    elim (Option-cases (get m version)) [
      | inl absent ↦ rw (absent, undelete_one_dek) h
      | inr (dek, there) ↦ elim (Bool-cases (has_algorithm algorithm dek)) [
        | inr other ↦ rw (there, other, undelete_one_dek) h
        | inl same ↦ elim (Bool-cases dek.deleted) [
          | inr live ↦ rw (there, same, live, undelete_one_dek) h
          | inl gone ↦
              rw (there, same, gone, undelete_one_dek)
                (replace-NoPlaintext s kek_name subject m version (mark_dek now false dek) h clean
                  (AllValues-get IsClean m version dek clean there))
        ]
      ]
    ]

undelete_all-NoPlaintext :
    (s : Store) (now : ℕ) (kek_name subject algorithm : String) (m : Map ℤ DekRecord)
    → NoPlaintext s
    → CleanVersions m
    → NoPlaintext (undelete_all_deks s now kek_name subject algorithm m).1
unfolding undelete_all_deks
undelete_all-NoPlaintext s now kek_name subject algorithm m h clean =
    elim (Bool-cases (any_deleted_dek algorithm m)) [
      | inr nothing ↦ rw (nothing, undelete_all_deks) h
      | inl found ↦
          rw (found, undelete_all_deks)
            (set_dek_versions-NoPlaintext s kek_name subject (restore_deks now algorithm m) h
              (restore_deks-clean now algorithm m clean))
    ]

update_dek-NoPlaintext :
    (s : Store) (dek : DekRecord) (m : Map ℤ DekRecord)
    → NoPlaintext s
    → CleanVersions m
    → dek_versions s dek.kek_name dek.subject ≡ some m
    → NoPlaintext (update_dek s dek).1
unfolding update_dek
update_dek-NoPlaintext s dek m h clean known = elim (Option-cases (get m dek.version)) [
  | inl absent ↦ rw (known, absent, update_dek) h
  | inr (old, there) ↦
      rw (known, there, update_dek)
        (replace-NoPlaintext s dek.kek_name dek.subject m dek.version
          (record old { encrypted_key_material = dek.encrypted_key_material; ts = dek.ts }) h clean
          (AllValues-get IsClean m dek.version old clean there))
]

-- The key encryption methods leave the data encryption keys alone, but that a permanent delete
-- removes those of its key.
delete_kek-NoPlaintext :
    (s : Store) (now : ℕ) (name : String) (permanent : Bool)
    → NoPlaintext s
    → NoPlaintext (delete_kek s now name permanent).1
unfolding delete_kek
delete_kek-NoPlaintext s now name permanent h = elim (Option-cases (get s.keks name)) [
  | inl absent ↦ rw (absent, delete_kek) h
  | inr (kek, there) ↦ elim (Bool-cases permanent) [
    | inl p ↦ rw (there, p, delete_kek) (AllValues-delete CleanSubjects s.deks name h)
    | inr p ↦ rw (there, p, delete_kek) h
  ]
]

deks-kek_methods :
    (s : Store) (now : ℕ) (kek : KekRecord)
    → ((create_kek s now kek).1.deks ≡ s.deks) × ((update_kek s now kek).1.deks ≡ s.deks)
unfolding create_kek update_kek
deks-kek_methods s now kek = (ground arith, ground arith)

deks-undelete_kek :
    (s : Store) (now : ℕ) (name : String) → (undelete_kek s now name).1.deks ≡ s.deks
unfolding undelete_kek
deks-undelete_kek s now name = ground arith

-- Where no stored data encryption key has its plaintext, none has after any method on encryption
-- keys, whatever the key that is given has.
pub KeyStep-NoPlaintext : {s t : Store} → KeyStep s t → NoPlaintext s → NoPlaintext t
unfolding delete_dek undelete_dek update_dek
KeyStep-NoPlaintext (create_dek_step s now dek) h = create_dek-NoPlaintext s now dek h
KeyStep-NoPlaintext (delete_dek_step s now kek_name subject version algorithm permanent) h =
    on_versions s kek_name subject _ h λ m clean. elim (Bool-cases (version == negsuc 0)) [
      | inl every ↦
          rw every (delete_all-NoPlaintext s now kek_name subject algorithm permanent m h clean)
      | inr one ↦
          rw one
            (delete_one-NoPlaintext s now kek_name subject version algorithm permanent m h clean)
    ]
KeyStep-NoPlaintext (undelete_dek_step s now kek_name subject version algorithm) h =
    on_versions s kek_name subject _ h λ m clean. elim (Bool-cases (version == negsuc 0)) [
      | inl every ↦ rw every (undelete_all-NoPlaintext s now kek_name subject algorithm m h clean)
      | inr one ↦
          rw one (undelete_one-NoPlaintext s now kek_name subject version algorithm m h clean)
    ]
KeyStep-NoPlaintext (update_dek_step s dek) h =
    elim (Option-cases (dek_versions s dek.kek_name dek.subject)) [
      | inl absent ↦ rw (absent, update_dek) h
      | inr (m, known) ↦
          update_dek-NoPlaintext s dek m h (dek_versions-clean s dek.kek_name dek.subject m h known)
            known
    ]
KeyStep-NoPlaintext (create_kek_step s now kek) h = rw (deks-kek_methods s now kek).0 h
KeyStep-NoPlaintext (update_kek_step s now kek) h = rw (deks-kek_methods s now kek).1 h
KeyStep-NoPlaintext (delete_kek_step s now name permanent) h =
    delete_kek-NoPlaintext s now name permanent h
KeyStep-NoPlaintext (undelete_kek_step s now name) h = rw (deks-undelete_kek s now name) h
