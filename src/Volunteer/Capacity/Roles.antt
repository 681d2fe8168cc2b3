-- ===== src/Volunteer/Capacity/Roles.antt =====
-- The capacity invariant under applications and under new and changed roles.
use Prim.Native.String.{String}
use gathergo_backend.Base.{
  ℕ, ◌<◌, ◌≡◌, refl, ◌⊎◌, inl, inr, true, false, not, Option, none, some, List, [], ◌∷◌, arith, leb,
  ◌==◌, Bool-cases, ==_iff, ◌∙◌, count_if, find, put, All, ok, Keeps, kept, threw, Keeps->>=,
  Keeps->>, Keeps-if, throw_if, or_throw-eq-ok,
}
use gathergo_backend.Volunteer.{VolunteerStatus, VolunteerRole, EventVolunteer, Db, occupancy}
use gathergo_backend.Volunteer.Service.{
  find_role, role_full, initial_status, new_application, of_user, is_over, admit_application,
  apply_again, apply, CreateVolunteerRoleDto, UpdateVolunteerRoleDto, create_role, update_role,
}
use gathergo_backend.Volunteer.Capacity.{IsLinked, Inv, update-Inv, insert-Inv}
use gathergo_backend.Volunteer.Capacity.Calls.{find_role-found}

free_place :
    (db : Db) (role_id : ℕ) (role : VolunteerRole)
    → db.roles role_id ≡ some role
    → throw_if (leb role.capacity (occupancy role_id db.volunteers)) role_full ≡ ok tt
    → (r : VolunteerRole) × (db.roles role_id ≡ some r)
      × (occupancy role_id db.volunteers < r.capacity)
free_place db role_id role found free = (role, found, ground arith)

module _ (db : Db) (event_id role_id user_id : ℕ) (role : VolunteerRole) (note : Option String)
    (id : ℕ) (inv : Inv db) (found : find_role db event_id role_id ≡ some role) where
  relink :
      (b : EventVolunteer) (status : VolunteerStatus)
      → b.event_id ≡ event_id
      → IsLinked db.roles (record b { role_id = role_id; note = note; status = status })
  relink b status e =
      let (present, same) = find_role-found db event_id role_id role found in
      (role, present, rw (e, same))

  admit-Inv :
      (existing : Option EventVolunteer)
      → find (of_user event_id user_id) db.volunteers ≡ existing
      → Keeps Inv (admit_application db event_id role_id user_id role note id existing)
  unfolding admit_application
  admit-Inv none e = Keeps->> _ _ λ free. kept _ (
      insert-Inv db inv (new_application event_id role_id user_id (initial_status role) note id)
        (relink (new_application event_id role_id user_id (initial_status role) note id)
          (initial_status role) refl)
        (inr (
          inr
            (free_place db role_id role (find_role-found db event_id role_id role found).0 free))))
  admit-Inv (some a) e = Keeps->> _ _ λ free. kept _ (
      update-Inv db inv (of_user event_id user_id) _ a e
        (λ b own _. relink b (initial_status role) (ground arith))
        (inr (
          inr
            (free_place db role_id role (find_role-found db event_id role_id role found).0 free))))

  apply_again-Inv :
      (existing : Option EventVolunteer)
      → find (of_user event_id user_id) db.volunteers ≡ existing
      → Keeps Inv (apply_again db event_id role_id user_id role note id existing)
  unfolding apply_again
  apply_again-Inv none e = admit-Inv none e
  apply_again-Inv (some a) e =
      Keeps-if (not (is_over a.status)) _ _
        (λ _. Keeps-if (a.role_id == role_id) (ok (db, a)) _ (λ _. kept _ inv) (λ _. threw _))
        (λ _. admit-Inv (some a) e)

pub apply-Inv :
    (db : Db) (event_id role_id user_id : ℕ) (note : Option String) (now id : ℕ)
    → Inv db
    → Keeps Inv (apply db event_id role_id user_id note now id)
unfolding apply
apply-Inv db event_id role_id user_id note now id inv = Keeps->>= _ _ λ event _. Keeps->> _ _ λ _.
    Keeps->> _ _ λ _. Keeps->> _ _ λ _. Keeps->>= _ _ λ role got. Keeps->> _ _ λ _.
      apply_again-Inv db event_id role_id user_id role note id inv
        (or_throw-eq-ok (find_role db event_id role_id) _ got) _ refl

-- A change of the role table that keeps the event of every role that is there.
module _ (roles : ℕ → Option VolunteerRole) (id : ℕ) (new : VolunteerRole) where
  put-IsLinked :
      ((role : VolunteerRole) → roles id ≡ some role → new.event_id ≡ role.event_id)
      → (vs : List EventVolunteer) → All (IsLinked roles) vs
      → All (IsLinked (put roles id new)) vs
  put-IsLinked same [] h = tt
  put-IsLinked same (v ∷ vs) ((role, there, linked), h) =
      (link (Bool-cases (v.role_id == id)), put-IsLinked same vs h)
    where
      link :
          ((v.role_id == id) ≡ true) ⊎ ((v.role_id == id) ≡ false) → IsLinked (put roles id new) v
      link (inl hit) =
          let e = (==_iff v.role_id id).0 hit in (new, rw hit, same role (rw e at there) ∙ linked)
      link (inr miss) = (role, rw miss there, linked)

unused_role :
    (roles : ℕ → Option VolunteerRole) (id : ℕ) (vs : List EventVolunteer)
    → roles id ≡ none
    → All (IsLinked roles) vs
    → occupancy id vs ≡ 0
unfolding occupancy count_if
unused_role roles id [] e h = refl
unused_role roles id (v ∷ vs) e ((role, there, linked), h) =
    ground (arith, unused_role roles id vs e h)

-- The identifier of the new role is not in use (it is a fresh UUID, and a primary key).
pub create_role-Inv :
    (db : Db) (event_id user_id : ℕ) (dto : CreateVolunteerRoleDto) (now id : ℕ)
    → db.roles id ≡ none
    → Inv db
    → Keeps Inv (create_role db event_id user_id dto now id)
unfolding create_role
create_role-Inv db event_id user_id dto now id fresh inv = Keeps->>= _ _ λ event _.
    Keeps->> _ _ λ _. Keeps->> _ _ λ _. Keeps->> _ _ λ _. kept _ (record {
      linked = put-IsLinked db.roles id _ (λ role e. cc (fresh, e)) db.volunteers inv.linked;
      within = λ k role e. ground (
        arith,
        inv.within k role,
        unused_role db.roles id db.volunteers fresh inv.linked,
        ==_iff k id,
      );
    })

pub update_role-Inv :
    (db : Db) (event_id role_id user_id : ℕ) (dto : UpdateVolunteerRoleDto) (now : ℕ)
    → Inv db
    → Keeps Inv (update_role db event_id role_id user_id dto now)
unfolding update_role
update_role-Inv db event_id role_id user_id dto now inv = Keeps->>= _ _ λ event _. Keeps->> _ _ λ _.
    Keeps->> _ _ λ _. Keeps->> _ _ λ _. Keeps->>= _ _ λ role got. Keeps->> _ _ λ enough.
      let (there, same) =
        find_role-found db event_id role_id role
          (or_throw-eq-ok (find_role db event_id role_id) _ got) in
      kept _ (record {
        linked = put-IsLinked db.roles role_id _ (λ r e. ground arith) db.volunteers inv.linked;
        within = λ k r e. ground (arith, inv.within k r, inv.within role_id role there);
      })
