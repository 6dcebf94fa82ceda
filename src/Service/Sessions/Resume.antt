-- ===== src/Service/Sessions/Resume.antt =====
-- The resumption of the active sessions after a restart.
use maritime_simulation.Base.{◌≡◌, true, List, [], ◌∷◌, some, arith, refl, All, sym, subst, ◌∙◌, ap}
use maritime_simulation.Base.Text.{Text, text_eq_refl}
use maritime_simulation.Base.Dict.{lookup, lookup-insert}
use maritime_simulation.Domain.Errors.{Result, ok, err}
use maritime_simulation.Domain.Entities.{Session}
use maritime_simulation.Service.Ports.{Ports, Sim, try_ok, Effect}
use maritime_simulation.Service.Topology.{add_session}
use maritime_simulation.Service.Sessions.{
  cache_params, wrote, resume_all, resume_next, resume_active,
}

module _ {W S : Type 0} where
  -- The session is in the schedule of the topology service.
  abbrev pub IsScheduled : Text → Sim W S → Type 0
  IsScheduled id s = lookup id s.active ≡ some true

  add_session-IsScheduled :
      (id sid : Text) (s : Sim W S) → IsScheduled id s → IsScheduled id (add_session sid s).1
  unfolding add_session
  add_session-IsScheduled id sid s h = ground (arith, lookup-insert sid id true s.active)

  added-IsScheduled : (sid : Text) (s : Sim W S) → IsScheduled sid (add_session sid s).1
  unfolding add_session
  added-IsScheduled sid s = rw (lookup-insert sid sid true s.active, text_eq_refl sid) refl

module _ {W S : Type 0} (p : Ports W S) where
  wrote-active :
      (r : Result (Unit {0})) (e : Effect W) (s : Sim W S) → (wrote p r e s).1.active ≡ s.active
  unfolding wrote
  wrote-active (ok _) e s = refl
  wrote-active (err _) e s = refl

  cache_params-active :
      (sess : Session W) (s : Sim W S) → (cache_params p sess s).1.active ≡ s.active
  unfolding cache_params
  cache_params-active sess s = wrote-active _ _ _

  resume_next-ok :
      (r : Result (Unit {0})) (t : Sim W S) (later : Result (Unit {0}) × Sim W S)
      → (resume_next p r t later).0 ≡ ok tt
      → resume_next p r t later ≡ later
  resume_next-ok (ok _) t later h = refl
  resume_next-ok (err _) t later h = cc

  resume_next-IsScheduled :
      (id : Text) (r : Result (Unit {0})) (t : Sim W S) (later : Result (Unit {0}) × Sim W S)
      → IsScheduled id t
      → IsScheduled id later.1
      → IsScheduled id (resume_next p r t later).1
  resume_next-IsScheduled id (ok _) t later h k = k
  resume_next-IsScheduled id (err _) t later h k = h

  resume_all-keeps :
      (id : Text) (l : List (Session W)) (s : Sim W S)
      → IsScheduled id s
      → IsScheduled id (resume_all p l s).1
  unfolding resume_all
  resume_all-keeps id [] s h = h
  resume_all-keeps id (sess ∷ rest) s h =
      let (r, t) = cache_params p sess s in
      let k = ap (lookup id) (cache_params-active sess s) ∙ h in
      resume_next-IsScheduled id r t (resume_all p rest (add_session sess.id t).1) k (
        resume_all-keeps id rest (add_session sess.id t).1 (add_session-IsScheduled id sess.id t k))

  resume_all-IsScheduled :
      (l : List (Session W)) (s : Sim W S)
      → (resume_all p l s).0 ≡ ok tt
      → All (λ sess. IsScheduled sess.id (resume_all p l s).1) l
  unfolding resume_all
  resume_all-IsScheduled [] s h = tt
  resume_all-IsScheduled (sess ∷ rest) s h =
      let (r, t) = cache_params p sess s in
      let u = (add_session sess.id t).1 in
      let later = resume_all p rest u in
      let e = resume_next-ok r t later h in
      subst (λ x. All (λ q. IsScheduled q.id x.1) (sess ∷ rest)) (sym e)
        (
          resume_all-keeps sess.id rest u (added-IsScheduled sess.id t),
          resume_all-IsScheduled rest u (ap (λ x. x.0) (sym e) ∙ h),
        )

  resume_from :
      (r : Result (List (Session W))) (s : Sim W S)
      → (try_ok r (resume_all p) s).0 ≡ ok tt
      → (l : List (Session W)) × (r ≡ ok l)
        × All (λ sess. IsScheduled sess.id (try_ok r (resume_all p) s).1) l
  resume_from (ok l) s h = (l, refl, resume_all-IsScheduled l s h)
  resume_from (err e) s h = cc

  -- After a restart: if `ResumeActive` succeeds, the active sessions were read, and each of them
  -- is in the schedule of the topology service.
  pub resume_active-IsScheduled :
      (s : Sim W S)
      → (resume_active p s).0 ≡ ok tt
      → (l : List (Session W)) × ((p.list_active s.world).0 ≡ ok l)
        × All (λ sess. IsScheduled sess.id (resume_active p s).1) l
  unfolding resume_active
  resume_active-IsScheduled s h =
      let r = p.list_active s.world in resume_from r.0 (record s { world = r.1 }) h
