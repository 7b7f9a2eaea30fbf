-- ===== src/WorldManager/Leases/Access.antt =====
-- Access to a private world around `releaseForOwnerDeparture` of
-- packages/world-manager/src/leases.ts.
use badgerbots_code_studio.Prelude.{
  ◌≡◌, ◌≢◌, refl, ◌∙◌, sym, inl, inr, ◌⊎◌, String, Bool, ◌&&◌, ◌||◌, true, false, List, [], some,
  Bool-cases, lookup, insert, lookup-insert, str_eq, eq_iff, has, arith, if◌then◌else◌, Result, ok,
  err,
}
use badgerbots_code_studio.WorldManager.Leases.Capacity.{require_active_lease_lem}
use badgerbots_code_studio.WorldManager.Leases.{
  PrivateWorldLease, LeaseManager, LeaseError, ReleaseResult, is_active_lease, released,
  require_active_lease, release_on, release_for_owner_departure, can_enter, can_edit,
}

-- A release that returns was asked for by the owner of an active lease, closes the world to everyone,
-- evicts exactly the students who could enter, apart from the owner, and leaves the other worlds; a
-- release that throws changes nothing.
abbrev pub Releases :
    String → String → LeaseManager → LeaseManager → Result LeaseError ReleaseResult → Type 0
Releases id owner m m' (err e) = m' ≡ m
Releases id owner m m' (ok result) =
    (can_edit id owner m ≡ true)
    × ((student : String) → can_enter id student m' ≡ false)
    × ((student : String)
        → has result.evicted_visitor_ids student ≡ true
        → can_enter id student m ≡ true)
    × ((student : String)
        → student ≢ owner
        → can_enter id student m ≡ true
        → has result.evicted_visitor_ids student ≡ true)
    × ((other : String) → other ≢ id → lookup other m'.leases ≡ lookup other m.leases)

release_others :
    (id other : String) (lease : PrivateWorldLease) (leases : List (String × PrivateWorldLease))
    → other ≢ id
    → lookup other (insert id lease leases) ≡ lookup other leases
release_others id other lease leases ne =
    lookup-insert id other lease leases ∙ go (Bool-cases (str_eq id other))
  where
    go :
        ((str_eq id other ≡ true) ⊎ (str_eq id other ≡ false))
        → (if str_eq id other then some lease else lookup other leases) ≡ lookup other leases
    go (inl same) = absurd (ne (sym ((eq_iff id other).0 same)))
    go (inr differs) = rw differs refl

abbrev closed : PrivateWorldLease → PrivateWorldLease
closed lease = record lease { lifecycle = released; approved_visitor_ids = [] }

closed_to_all :
    (id student : String) (lease : PrivateWorldLease) (m : LeaseManager)
    → can_enter id student (record m { leases = insert id (closed lease) m.leases }) ≡ false
unfolding can_enter
closed_to_all id student lease m =
    ground (arith, lookup-insert id id (closed lease) m.leases, eq_iff id id)

owner_can_edit :
    (id owner : String) (lease : PrivateWorldLease) (m : LeaseManager)
    → lookup id m.leases ≡ some lease
    → is_active_lease lease ≡ true
    → str_eq lease.scope.owner_student_id owner ≡ true
    → can_edit id owner m ≡ true
unfolding can_edit
owner_can_edit id owner lease m h a mine = rw (h, can_edit) (ground arith)

visitor_can_enter :
    (id student : String) (lease : PrivateWorldLease) (m : LeaseManager)
    → lookup id m.leases ≡ some lease
    → is_active_lease lease ≡ true
    → has lease.approved_visitor_ids student ≡ true
    → can_enter id student m ≡ true
unfolding can_enter
visitor_can_enter id student lease m h a v = rw (h, can_enter) (ground arith)

other_owner :
    (lease : PrivateWorldLease) (owner student : String)
    → str_eq lease.scope.owner_student_id owner ≡ true
    → student ≢ owner
    → str_eq lease.scope.owner_student_id student ≡ false
other_owner lease owner student mine guest =
    elim (Bool-cases (str_eq lease.scope.owner_student_id student)) [
      | inl same ↦ absurd (guest (sym ((eq_iff _ _).0 same) ∙ (eq_iff _ _).0 mine))
      | inr differs ↦ differs
    ]

only_visitor : (a b c : Bool) → b ≡ false → (a && (b || c)) ≡ true → c ≡ true
only_visitor a b c e h = ground (arith, h, e)

can_enter-lem :
    (id student : String) (lease : PrivateWorldLease) (m : LeaseManager)
    → lookup id m.leases ≡ some lease
    → can_enter id student m ≡ (
        is_active_lease lease
        && (str_eq lease.scope.owner_student_id student || has lease.approved_visitor_ids student))
unfolding can_enter
can_enter-lem id student lease m h = rw (h, can_enter) refl

who_entered :
    (id student : String) (lease : PrivateWorldLease) (m : LeaseManager)
    → lookup id m.leases ≡ some lease
    → str_eq lease.scope.owner_student_id student ≡ false
    → can_enter id student m ≡ true
    → has lease.approved_visitor_ids student ≡ true
who_entered id student lease m h guest e =
    only_visitor _ _ _ guest (sym (can_enter-lem id student lease m h) ∙ e)

-- `releaseForOwnerDeparture`: if it returns, the caller was the owner of an
-- active lease, nobody may enter the world any more, the evicted students could enter it before, and
-- all who could enter it before are evicted, the owner apart, and the other leases are as before; if
-- it throws, nothing changes.
pub release_closes :
    (id owner : String) (m : LeaseManager)
    → let (m', result) = release_for_owner_departure id owner m in Releases id owner m m' result
unfolding release_for_owner_departure
release_closes id owner m = on_lease (require_active_lease id m) refl
  where
    on_lease :
        (found : Result LeaseError PrivateWorldLease)
        → require_active_lease id m ≡ found
        → Releases id owner m (release_on id owner found m).0 (release_on id owner found m).1
    on_lease (err e) h = refl
    on_lease (ok lease) h =
        let (there, open_) = require_active_lease_lem id m lease h in
        elim (Bool-cases (str_eq lease.scope.owner_student_id owner)) [
          | inr other ↦ rw (other, release_on) refl
          | inl mine ↦
              rw (mine, release_on)
                (
                  owner_can_edit id owner lease m there open_ mine,
                  λ student. closed_to_all id student lease m,
                  λ student v. visitor_can_enter id student lease m there open_ v,
                  λ student guest e.
                      who_entered id student lease m there
                        (other_owner lease owner student mine guest) e,
                  λ other ne. release_others id other (closed lease) m.leases ne,
                )
        ]
