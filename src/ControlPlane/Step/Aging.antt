-- ===== src/ControlPlane/Step/Aging.antt =====
-- How `refreshRetention` of packages/control-plane/src/service.ts ages one session of the table.
use mathlib.Core.Path.{subst}
use badgerbots_code_studio.Prelude.{
  ℕ, ◌≡◌, refl, ap, sym, ◌∙◌, some, arith, Bool, true, false, ◌&&◌, ◌||◌, ◌⊎◌, inl, inr, List, [],
  ◌∷◌, ◌++◌, if◌then◌else◌,
}
use badgerbots_code_studio.ControlPlane.Dates.{Date}
use badgerbots_code_studio.ControlPlane.Store.{
  SessionRetentionState, deletion_queued, CampSession, find, change_first,
}
use badgerbots_code_studio.ControlPlane.Access.{is_state, opened, hidden, queued, refreshed}
use badgerbots_code_studio.ControlPlane.Retention.{mark_deleted}
use badgerbots_code_studio.ControlPlane.Step.{
  IsNext, begins, ends, ends_unseen, expires, purged, Becomes, stays, goes_on, Ages, AllAge,
  none_left, and_then,
}

pub is_state_eq : (a b : SessionRetentionState) → is_state a b ≡ true → a ≡ b
is_state_eq a b h = ground arith

-- One step of the state a session is in.
pub Becomes-next : {a b c : SessionRetentionState} → a ≡ c → IsNext c b → Becomes a b
Becomes-next {b = b} e n = subst (λ x. Becomes x b) (sym e) (goes_on n stays)

pub Becomes-trans : {a b c : SessionRetentionState} → Becomes a b → Becomes b c → Becomes a c
Becomes-trans stays q = q
Becomes-trans (goes_on n p) q = goes_on n (Becomes-trans p q)

pub Ages-refl : (s : CampSession) → Ages s s
Ages-refl s = record { rest = refl; becomes = stays }

pub Ages-trans : {a b c : CampSession} → Ages a b → Ages b c → Ages a c
Ages-trans {c = c} p q = record {
  rest =
      q.rest
      ∙ ap
          (λ (x : CampSession). record x {
            retention_state = c.retention_state;
            recoverable_until = c.recoverable_until;
          })
          p.rest;
  becomes = Becomes-trans p.becomes q.becomes;
}

pub Ages-id : {a b : CampSession} → Ages a b → b.id ≡ a.id
Ages-id h = ap (λ x. x.id) h.rest

Ages-if :
    (test : Bool) (a b : CampSession) → (test ≡ true → Ages a b) → Ages a (if test then b else a)
Ages-if true a b h = h refl
Ages-if false a b h = Ages-refl a

and_left : (a b : Bool) → (a && b) ≡ true → a ≡ true
and_left a b h = ground arith

or_cases : (a b : Bool) → (a || b) ≡ true → (a ≡ true) ⊎ (b ≡ true)
or_cases a b h = ground arith

module _ (today : Date) (s : CampSession) where
  opened-Ages : Ages s (opened today s)
  opened-Ages = Ages-if _ _ _ (λ h. record {
    rest = refl;
    becomes = Becomes-next (is_state_eq _ _ (and_left _ _ (and_left _ _ h))) begins;
  })

  hidden-Ages : (days : ℕ) → Ages s (hidden days today s)
  hidden-Ages days = Ages-if _ _ _ (λ h. record {
    rest = refl;
    becomes = elim (or_cases _ _ (and_left _ _ h)) [
      | inl e ↦ Becomes-next (is_state_eq _ _ e) ends_unseen
      | inr e ↦ Becomes-next (is_state_eq _ _ e) ends
    ];
  })

  queued-Ages : Ages s (queued today s)
  queued-Ages = Ages-if _ _ _ (λ h. record {
    rest = refl;
    becomes = Becomes-next (is_state_eq _ _ (and_left _ _ h)) expires;
  })

pub refreshed-Ages : (days : ℕ) (today : Date) (s : CampSession) → Ages s (refreshed days today s)
unfolding refreshed
refreshed-Ages days today s =
    Ages-trans (opened-Ages today s) (Ages-trans (hidden-Ages today _ days) (queued-Ages today _))

pub mark_deleted-Ages :
    (s : CampSession) → s.retention_state ≡ deletion_queued → Ages s (mark_deleted s)
mark_deleted-Ages s e = record { rest = refl; becomes = Becomes-next e purged }

pub AllAge-refl : (ss : List CampSession) → AllAge ss ss
AllAge-refl [] = none_left
AllAge-refl (s ∷ ss) = and_then (Ages-refl s) (AllAge-refl ss)

-- Only the session that the search finds has to age.
AllAge-change_one :
    (test : Bool) (s s' : CampSession) (ss ss' : List CampSession)
    → (test ≡ true → Ages s s')
    → (test ≡ false → AllAge ss ss')
    → AllAge (s ∷ ss) (if test then s' ∷ ss else s ∷ ss')
AllAge-change_one true s s' ss ss' h rest = and_then (h refl) (AllAge-refl ss)
AllAge-change_one false s s' ss ss' h rest = and_then (Ages-refl s) (rest refl)

pub AllAge-change_first :
    (test : CampSession → Bool) (f : CampSession → CampSession) (ss : List CampSession)
    → ((s : CampSession) → find test ss ≡ some s → Ages s (f s))
    → AllAge ss (change_first test f ss)
unfolding change_first find
AllAge-change_first test f [] h = none_left
AllAge-change_first test f (s ∷ ss) h =
    AllAge-change_one (test s) s (f s) ss (change_first test f ss) (λ e. h s (rw e))
      (λ e. AllAge-change_first test f ss (λ s' found. h s' (rw (e, found))))

-- The sessions of a loop, one of which ages.
pub AllAge-round :
    (done : List CampSession) (s s' : CampSession) (rest : List CampSession)
    → Ages s s'
    → AllAge (done ++ s ∷ rest) (done ++ s' ∷ rest)
AllAge-round [] s s' rest h = and_then h (AllAge-refl rest)
AllAge-round (d ∷ done) s s' rest h = and_then (Ages-refl d) (AllAge-round done s s' rest h)
