-- ===== src/Memory/UserIndex.antt =====
-- The index of the users by name: it and the users name each other, whatever is created, changed or
-- deleted.
use axonops_schema_registry.Common.{
  get, delete, ℕ, String, ◌≡◌, ◌≢◌, inl, inr, true, Option, none, some, arith, Option-cases, ℕ_eq,
  string_eq, ==_iff, ==-cases, ℤ, pos, int_eq, ℤ_eq, ◌<ℤ◌, max_int64, lt-inc64, get-delete, get-put,
}
use axonops_schema_registry.Storage.{UserRecord}
use axonops_schema_registry.Memory.State.{Store}
use axonops_schema_registry.Memory.Users.{create_user, update_user, delete_user}

abbrev pub username_of : Store → ℤ → Option String
username_of s id = elim (get s.users id) [ none ↦ none | some user ↦ some user.username ]

pub record IsIndexed (s : Store) : Type 0 where
  pub own_id : (id : ℤ) (user : UserRecord) → get s.users id ≡ some user → user.id ≡ id
  pub below_next : (id : ℤ) → username_of s id ≢ none → id <ℤ s.next_user_id
  pub listed :
      (name : String) (id : ℤ)
      → get s.users_by_username name ≡ some id
      → username_of s id ≡ some name
  pub found :
      (name : String) (id : ℤ)
      → username_of s id ≡ some name
      → get s.users_by_username name ≡ some id

-- The methods on users. A new user has no ID yet, as the service creates them.
pub data UserStep : Store → Store → Type 0 where
  create_user_step :
      (s : Store) (now : ℕ) (user : UserRecord)
      → user.id ≡ pos 0
      → s.next_user_id <ℤ max_int64
      → UserStep s (create_user s now user).2
  update_user_step :
      (s : Store) (now : ℕ) (user : UserRecord) → UserStep s (update_user s now user).1
  delete_user_step : (s : Store) (id : ℤ) → UserStep s (delete_user s id).1

module _ (s : Store) (h : IsIndexed s) where
  create_user-IsIndexed :
      (now : ℕ) (user : UserRecord)
      → user.id ≡ pos 0
      → s.next_user_id <ℤ max_int64
      → IsIndexed (create_user s now user).2
  unfolding create_user
  create_user-IsIndexed now user fresh room =
      let id = s.next_user_id in
      let stored = record user { id = id; created_at = now; updated_at = now } in
      let asked : int_eq user.id (pos 0) ≡ true = (==_iff user.id (pos 0)).1 fresh in
      elim (Option-cases (get s.users_by_username user.username)) [
        | inr (taken, e) ↦ rw (e, create_user) h
        | inl free ↦
            rw (free, asked, create_user)
              (record {
                own_id =
                    λ i u p. ground (arith, h.own_id i u, get-put s.users id i stored, ==_iff id i);
                below_next = λ i p. ground (
                  arith,
                  h.below_next i,
                  get-put s.users id i stored,
                  ==_iff id i,
                  lt-inc64 id room,
                );
                listed = λ n i p. ground (
                  arith,
                  h.listed n i,
                  h.below_next i,
                  get-put s.users id i stored,
                  get-put s.users_by_username user.username n id,
                  ==_iff id i,
                  ==_iff user.username n,
                );
                found = λ n i p. ground (
                  arith,
                  h.found n i,
                  get-put s.users id i stored,
                  get-put s.users_by_username user.username n id,
                  ==_iff id i,
                  ==_iff user.username n,
                );
              })
      ]

  delete_user-IsIndexed : (id : ℤ) → IsIndexed (delete_user s id).1
  unfolding delete_user
  delete_user-IsIndexed id = elim (Option-cases (get s.users id)) [
    | inl absent ↦ rw (absent, delete_user) h
    | inr (user, there) ↦
        rw (there, delete_user)
          (record {
            own_id = λ i u p. ground (arith, h.own_id i u, get-delete s.users id i, ==_iff id i);
            below_next =
                λ i p. ground (arith, h.below_next i, get-delete s.users id i, ==_iff id i);
            listed = λ n i p. ground (
              arith,
              h.listed n i,
              h.found user.username id,
              there,
              get-delete s.users id i,
              get-delete s.users_by_username user.username n,
              ==_iff id i,
              ==_iff user.username n,
            );
            found = λ n i p. ground (
              arith,
              h.found n i,
              h.found user.username id,
              there,
              get-delete s.users id i,
              get-delete s.users_by_username user.username n,
              ==_iff id i,
              ==_iff user.username n,
            );
          })
  ]

  update_user-IsIndexed : (now : ℕ) (user : UserRecord) → IsIndexed (update_user s now user).1
  unfolding update_user
  update_user-IsIndexed now user =
      let id = user.id in
      let stored = record user { updated_at = now } in
      elim (Option-cases (get s.users id)) [
        | inl absent ↦ rw (absent, update_user) h
        | inr (old, there) ↦
            let is_found = h.found old.username id in
            elim (==-cases old.username user.username) [
              | inl same ↦
                  rw (there, (==_iff old.username user.username).1 same, update_user)
                    (record {
                      own_id = λ i u p.
                          ground (arith, h.own_id i u, get-put s.users id i stored, ==_iff id i);
                      below_next = λ i p. ground (
                        arith,
                        h.below_next i,
                        h.below_next id,
                        there,
                        get-put s.users id i stored,
                        ==_iff id i,
                      );
                      listed = λ n i p. ground (
                        arith,
                        h.listed n i,
                        there,
                        same,
                        get-put s.users id i stored,
                        ==_iff id i,
                      );
                      found = λ n i p. ground (
                        arith,
                        h.found n i,
                        there,
                        same,
                        get-put s.users id i stored,
                        ==_iff id i,
                      );
                    })
              | inr (off, distinct) ↦ elim (Option-cases (get s.users_by_username user.username)) [
                | inr (taken, e) ↦ rw (there, off, e, update_user) h
                | inl free ↦
                    let names = delete s.users_by_username old.username in
                    rw (there, off, free, update_user)
                      (record {
                        own_id = λ i u p.
                            ground (arith, h.own_id i u, get-put s.users id i stored, ==_iff id i);
                        below_next = λ i p. ground (
                          arith,
                          h.below_next i,
                          h.below_next id,
                          there,
                          get-put s.users id i stored,
                          ==_iff id i,
                        );
                        listed = λ n i p. ground (
                          arith,
                          h.listed n i,
                          is_found,
                          there,
                          get-put s.users id i stored,
                          get-put names user.username n id,
                          get-delete s.users_by_username old.username n,
                          ==_iff id i,
                          ==_iff user.username n,
                          ==_iff old.username n,
                        );
                        found = λ n i p. ground (
                          arith,
                          h.found n i,
                          is_found,
                          there,
                          get-put s.users id i stored,
                          get-put names user.username n id,
                          get-delete s.users_by_username old.username n,
                          ==_iff id i,
                          ==_iff user.username n,
                          ==_iff old.username n,
                        );
                      })
              ]
            ]
      ]

-- Creating, changing and deleting users keeps the users and their index by name in step: each names
-- the other, and each ID is below the counter. A user is created without an ID, while the counter
-- is below the largest 64-bit integer.
pub UserStep-IsIndexed : {s t : Store} → UserStep s t → IsIndexed s → IsIndexed t
UserStep-IsIndexed (create_user_step s now user fresh room) h =
    create_user-IsIndexed s h now user fresh room
UserStep-IsIndexed (update_user_step s now user) h = update_user-IsIndexed s h now user
UserStep-IsIndexed (delete_user_step s id) h = delete_user-IsIndexed s h id
