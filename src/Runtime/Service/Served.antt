-- ===== src/Runtime/Service/Served.antt =====
-- vehicle/mission/mission_service.py: what holds of the service between its requests.
use steeleagle.Prelude.{
  String, ◌≡◌, sym, subst, inl, inr, true, false, some, List, [], ◌∷◌, arith, Option-cases, Result,
  ok, err, Result-cases,
}
use steeleagle.Runtime.Session.{Session, Breaks, init, term}
use steeleagle.Runtime.Session.Whole.{IsWhole, init-IsWhole, term-IsWhole}
use steeleagle.Runtime.Service.{
  Service, Request, upload, start_mission, stop_mission, upload_mission, reply_after, start_service,
  stop_service, handle, handles,
}

-- No request makes `fsm_routine` a running task, and the runtime runs as a whole or not at all.
pub record IsServed {Mission : Type 0} (s : Service Mission) : Type 0 where
  pub no_routine : s.routine ≡ false
  pub whole : IsWhole s.runtime

module _ {Mission : Type 0} where
  reply_after-IsServed :
      (s : Service Mission) (r : Session Mission × Result (Unit {0}))
      → IsServed s
      → IsWhole r.0
      → IsServed (reply_after s r).0
  unfolding reply_after
  reply_after-IsServed s (r, ok u) h w = record { no_routine = h.no_routine; whole = w }
  reply_after-IsServed s (r, err e) h w = record { no_routine = h.no_routine; whole = w }

  start-IsServed : (b : Breaks) (s : Service Mission) → IsServed s → IsServed (start_service b s).0
  unfolding start_service
  start-IsServed b s h = elim (Option-cases s.mission) [
    | inl p ↦ let kept : (start_service b s).0 ≡ s = ground arith in subst IsServed (sym kept) h
    | inr (m, p) ↦
        let made : start_service b s ≡ reply_after s (init b m s.mission_map s.runtime) =
          ground (arith, h.no_routine) in
        subst (λ r. IsServed r.0) (sym made)
          (reply_after-IsServed s (init b m s.mission_map s.runtime) h
            (init-IsWhole b m s.mission_map s.runtime h.whole))
  ]

  stop-IsServed : (s : Service Mission) → IsServed s → IsServed (stop_service s).0
  unfolding stop_service
  stop-IsServed s h = elim (Option-cases s.mission) [
    | inl p ↦ let kept : (stop_service s).0 ≡ s = ground arith in subst IsServed (sym kept) h
    | inr (m, p) ↦
        let made : (stop_service s).0 ≡ record s { runtime = term s.runtime } = ground arith in
        subst IsServed (sym made)
          (record { no_routine = h.no_routine; whole = term-IsWhole s.runtime h.whole })
  ]

module _ {Mission : Type 0} (load : String → Result Mission) where
  upload-IsServed :
      (c mp : String) (s : Service Mission) → IsServed s → IsServed (upload_mission load c mp s).0
  unfolding upload_mission
  upload-IsServed c mp s h = elim (Result-cases (load c)) [
    | inl (m, p) ↦
        let made : (upload_mission load c mp s).0
            ≡ record s { mission = some m; mission_map = some mp } =
          ground arith in
        subst IsServed (sym made) (record { no_routine = h.no_routine; whole = h.whole })
    | inr (e, p) ↦
        let kept : (upload_mission load c mp s).0 ≡ s = ground arith in subst IsServed (sym kept) h
  ]

  handle-IsServed : (s : Service Mission) (r : Request) → IsServed s → IsServed (handle load s r).0
  unfolding handle
  handle-IsServed s (upload c mp) h = upload-IsServed c mp s h
  handle-IsServed s (start_mission b) h = start-IsServed b s h
  handle-IsServed s stop_mission h = stop-IsServed s h

  -- After any requests to a service that is served (the fresh service with the idle runtime is),
  -- the field `fsm_routine` still holds no running task, and the runtime is idle or whole.
  pub handles-IsServed :
      (s : Service Mission) (rs : List Request) → IsServed s → IsServed (handles load s rs)
  unfolding handles
  handles-IsServed s [] h = h
  handles-IsServed s (r ∷ rs) h = handles-IsServed (handle load s r).0 rs (handle-IsServed s r h)

  -- While the runtime is started, an upload followed by a start is answered with status 2, whether the
  -- start's own steps would raise or not, but the runtime keeps its state, the old mission's state
  -- machine included: the new mission is stored and not run.
  pub restart_ignored :
      (s : Service Mission) (c mp : String) (m : Mission) (b : Breaks)
      → IsServed s
      → s.runtime.started ≡ true
      → load c ≡ ok m
      → (handle load (handle load s (upload c mp)).0 (start_mission b) ≡ (
        record s { mission = some m; mission_map = some mp },
        ok (record { status = 2; text = "" }),
      ))
  unfolding handle upload_mission start_service reply_after init
  restart_ignored s c mp m b h p q = ground (arith, h.no_routine)
