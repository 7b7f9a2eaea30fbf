-- ===== src/ControlPlane/Step/Life.antt =====
-- The life of the sessions and of the two logs of packages/control-plane/src/service.ts, by induction on
-- the step relation.
use badgerbots_code_studio.Prelude.{
  ℕ, ◌+◌, ◌≡◌, refl, sym, ◌∙◌, ap, List, [], ◌∷◌, ◌++◌, arith, ◌==◌, Option, none, some,
  if◌then◌else◌,
}
use mathlib.Core.Path.{subst}
use mathlib.Core.List.{append_assoc, append-nil}
use badgerbots_code_studio.ControlPlane.Store.{CampSession, AuditRecord, RealtimeHint}
use badgerbots_code_studio.ControlPlane.Action.{Deps, Service}
use badgerbots_code_studio.ControlPlane.Operations.{Call, serve_all}
use badgerbots_code_studio.ControlPlane.Step.{
  Core, core, AllAge, none_left, and_then, Step, issue, log, notify, age, open_session,
  open_workspace, write, remove, Reaches, here, onward,
}
use badgerbots_code_studio.ControlPlane.Step.Aging.{Ages-trans, AllAge-refl}
use badgerbots_code_studio.ControlPlane.Step.Calls.{serve_all-Reaches}

-- The sessions were there, and each has aged; others may have been opened since.
pub record Outlive (olds news : List CampSession) : Type 0 where
  pub aged : List CampSession
  pub opened_since : List CampSession
  pub together : news ≡ aged ++ opened_since
  pub ages : AllAge olds aged

AllAge-trans :
    {before bs cs : List CampSession} → AllAge before bs → AllAge bs cs → AllAge before cs
AllAge-trans none_left none_left = none_left
AllAge-trans (and_then p ps) (and_then q qs) = and_then (Ages-trans p q) (AllAge-trans ps qs)

-- Aging a list in two parts.
AllAge-append :
    (xs ys zs : List CampSession)
    → AllAge (xs ++ ys) zs
    → (us : List CampSession) × (vs : List CampSession) × (zs ≡ us ++ vs) × AllAge xs us
AllAge-append [] ys zs h = ([], zs, refl, none_left)
AllAge-append (x ∷ xs) ys [] h = elim h [ ]
AllAge-append (x ∷ xs) ys (z ∷ zs) (and_then p ps) =
    let (us, vs, e, h) = AllAge-append xs ys zs ps in (z ∷ us, vs, ap (λ l. z ∷ l) e, and_then p h)

Outlive-refl : (ss : List CampSession) → Outlive ss ss
Outlive-refl ss = record {
  aged = ss;
  opened_since = [];
  together = sym (append-nil ss);
  ages = AllAge-refl ss;
}

Outlive-age :
    (before bs cs : List CampSession) → Outlive before bs → AllAge bs cs → Outlive before cs
Outlive-age before bs cs p h =
    let (us, vs, e, q) =
      AllAge-append p.aged p.opened_since cs (subst (λ l. AllAge l cs) p.together h) in
    record { aged = us; opened_since = vs; together = e; ages = AllAge-trans p.ages q }

Outlive-open :
    (before bs : List CampSession) (x : CampSession)
    → Outlive before bs
    → Outlive before (bs ++ x ∷ [])
Outlive-open before bs x p = record {
  aged = p.aged;
  opened_since = p.opened_since ++ x ∷ [];
  together = ap (λ l. l ++ x ∷ []) p.together ∙ append_assoc p.aged p.opened_since (x ∷ []);
  ages = p.ages;
}

Outlive-step :
    (deps : Deps) (ss : List CampSession) {c d : Core}
    → Step deps c d
    → Outlive ss c.sessions
    → Outlive ss d.sessions
Outlive-step deps ss (issue c) h = h
Outlive-step deps ss (log c a) h = h
Outlive-step deps ss (notify c x e) h = h
Outlive-step deps ss (age c sessions p) h = Outlive-age ss c.sessions sessions h p
Outlive-step deps ss (open_session c x fresh) h = Outlive-open ss c.sessions x h
Outlive-step deps ss (open_workspace c w e1 e2 e3) h = h
Outlive-step deps ss (write c w p v found source e1 e2 e3) h = h
Outlive-step deps ss (remove c id) h = h

Outlive-Reaches :
    (deps : Deps) (ss : List CampSession) {c d : Core}
    → Reaches deps c d
    → Outlive ss c.sessions
    → Outlive ss d.sessions
Outlive-Reaches deps ss here h = h
Outlive-Reaches deps ss (onward s p) h = Outlive-Reaches deps ss p (Outlive-step deps ss s h)

-- No call removes, reorders or reopens a session: of its fields only the retention state changes,
-- which goes forward, and the date of its deletion.
pub sessions-Outlive :
    (deps : Deps) (cs : List Call) (s : Service)
    → Outlive s.store.sessions (serve_all deps cs s).store.sessions
sessions-Outlive deps cs s =
    Outlive-Reaches deps s.store.sessions (serve_all-Reaches deps cs s)
      (Outlive-refl s.store.sessions)

-- The hints of a log, numbered on from `n`, and the last number.
unfoldable pub numbered : ℕ → List RealtimeHint → Option ℕ
numbered n [] = some n
numbered n (h ∷ hs) = let rest = numbered (n + 1) hs in if h.sequence == n + 1 then rest else none

-- Both logs have grown at their end, and the new hints are numbered without a gap.
pub record LogsGrow (audits audits' : List AuditRecord) (hints hints' : List RealtimeHint)
    (sequence sequence' : ℕ) : Type 0 where
  pub more_audits : List AuditRecord
  pub more_hints : List RealtimeHint
  pub audits_grow : audits' ≡ audits ++ more_audits
  pub hints_grow : hints' ≡ hints ++ more_hints
  pub in_order : numbered sequence more_hints ≡ some sequence'

abbrev Grow : Core → Core → Type 0
Grow c d = LogsGrow c.audits d.audits c.hints d.hints c.sequence d.sequence

numbered-append :
    (n m : ℕ) (hs : List RealtimeHint) (h : RealtimeHint)
    → numbered n hs ≡ some m
    → h.sequence ≡ m + 1
    → numbered n (hs ++ h ∷ []) ≡ some (m + 1)
unfolding numbered
numbered-append n m [] h e same = ground arith
numbered-append n m (x ∷ hs) h e same = ground (arith, numbered-append (n + 1) m hs h)

Grow-step : (deps : Deps) (b : Core) {c d : Core} → Step deps c d → Grow b c → Grow b d
Grow-step deps b (issue c) g = g
Grow-step deps b (log c a) g = record {
  more_audits = g.more_audits ++ a ∷ [];
  more_hints = g.more_hints;
  audits_grow = ap (λ l. l ++ a ∷ []) g.audits_grow ∙ append_assoc _ g.more_audits (a ∷ []);
  hints_grow = g.hints_grow;
  in_order = g.in_order;
}
Grow-step deps b (notify c x e) g = record {
  more_audits = g.more_audits;
  more_hints = g.more_hints ++ x ∷ [];
  audits_grow = g.audits_grow;
  hints_grow = ap (λ l. l ++ x ∷ []) g.hints_grow ∙ append_assoc _ g.more_hints (x ∷ []);
  in_order = numbered-append _ _ g.more_hints x g.in_order e;
}
Grow-step deps b (age c sessions p) g = g
Grow-step deps b (open_session c x fresh) g = g
Grow-step deps b (open_workspace c w e1 e2 e3) g = g
Grow-step deps b (write c w p v found source e1 e2 e3) g = g
Grow-step deps b (remove c id) g = g

Grow-Reaches : (deps : Deps) (b : Core) {c d : Core} → Reaches deps c d → Grow b c → Grow b d
Grow-Reaches deps b here g = g
Grow-Reaches deps b (onward s p) g = Grow-Reaches deps b p (Grow-step deps b s g)

Grow-refl : (c : Core) → Grow c c
unfolding numbered
Grow-refl c = record {
  more_audits = [];
  more_hints = [];
  audits_grow = sym (append-nil c.audits);
  hints_grow = sym (append-nil c.hints);
  in_order = refl;
}

-- Whatever is called, no entry of the audit log or of the hints is lost, and the hints that were added
-- are numbered on from the last number without a gap.
pub logs_grow :
    (deps : Deps) (cs : List Call) (s : Service)
    → let s' = serve_all deps cs s in
      LogsGrow s.store.audits s'.store.audits s.store.realtime_hints s'.store.realtime_hints
        s.sequence s'.sequence
logs_grow deps cs s = Grow-Reaches deps (core s) (serve_all-Reaches deps cs s) (Grow-refl (core s))
