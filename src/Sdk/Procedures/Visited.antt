-- ===== src/Sdk/Procedures/Visited.antt =====
-- sdk/src/steeleagle_sdk/dsl/types/actions/procedures/procedures.py: what a patrol sends.
use mathlib.Core.List.{append-nil, append_assoc, map-append}
use steeleagle.Prelude.{
  refl, true, inl, inr, subst, Option-cases, value_error, ℕ, ◌*◌, ◌≡◌, sym, ap, ◌∙◌, Option, none,
  some, List, [], ◌∷◌, ◌++◌, map, ok, err, Dict,
}
use steeleagle.Prelude.Int.{pos}
use steeleagle.Law.Kernel.{Call, Response, RpcError}
use steeleagle.Map.Waypoints.{Waypoint}
use steeleagle.Sdk.Calls.{
  Channel, Log, Request, set_global_position_request, to_target, relative, internal_call,
  run_streaming,
}
use steeleagle.Sdk.Vehicle.{Returned, control, set_global_position}
use steeleagle.Sdk.Actions.{execute_move}
use steeleagle.Sdk.Actions.Sent.{reply, stream-reply}
use steeleagle.Sdk.Procedures.{goto, visit_points, visit_areas, patrol}

-- The order to go to a waypoint: its position at its altitude above the take-off position, facing it,
-- at 5 metres and 120 degrees a second.
abbrev pub order_to : ℕ → Waypoint → Call Request
order_to one w = record {
  identity = "internal";
  service = "steeleagle.protocol.services.control_service.Control";
  method = "SetGlobalPosition";
  request =
      set_global_position_request
        (record {
          latitude = some w.lat;
          longitude = some w.lon;
          altitude = some w.alt;
          heading = none;
        })
        (some to_target) (some relative)
        (some (record {
          x_vel = some (pos (5 * one));
          y_vel = some (pos (5 * one));
          z_vel = some (pos (5 * one));
          angular_vel = some (pos (120 * one));
        }));
}

-- the waypoints of all areas, in their order
abbrev pub all_waypoints : Dict (List Waypoint) → List Waypoint
all_waypoints [] = []
all_waypoints ((name, points) ∷ areas) = points ++ all_waypoints areas

-- The kernel ends the stream of each order without an RPC error, each after those before it.
abbrev pub Answered : Channel → Log → List (Call Request) → Type 0
Answered c log [] = Unit
Answered c log (o ∷ os) = ((c.stream log o).failure ≡ none) × Answered c (log ++ o ∷ []) os

-- What flying to a list of orders may come to.
pub data Flown (c : Channel) (log : Log) (orders : List (Call Request))
    : Returned (Option Response) → Type 0 where
  -- all are sent and answered
  whole : Answered c log orders → Flown c log orders (ok none, log ++ orders)
  -- one fails behind those that are answered, and nothing is sent after it
  broken :
      (before after : List (Call Request)) (last : Call Request) (e : RpcError)
      → orders ≡ before ++ last ∷ after
      → Answered c log before
      → (c.stream (log ++ before) last).failure ≡ some e
      → Flown c log orders (err value_error, (log ++ before) ++ last ∷ [])

Flown-later :
    (c : Channel) (log : Log) (o : Call Request) (os : List (Call Request))
    (out : Returned (Option Response))
    → (c.stream log o).failure ≡ none
    → Flown c (log ++ o ∷ []) os out
    → Flown c log (o ∷ os) out
Flown-later c log o os out e (whole answered) =
    subst (λ l. Flown c log (o ∷ os) (ok none, l)) (sym (append_assoc log (o ∷ []) os))
      (whole (e, answered))
Flown-later c log o os out e (broken before after last fault parts answered fails) =
    let same : (log ++ o ∷ []) ++ before ≡ log ++ o ∷ before = append_assoc log (o ∷ []) before in
    subst (λ l. Flown c log (o ∷ os) (err value_error, l ++ last ∷ [])) (sym same)
      (broken (o ∷ before) after last fault (ap (λ r. o ∷ r) parts) (e, answered)
        (subst (λ l. (c.stream l last).failure ≡ some fault) same fails))

Flown-first :
    (c : Channel) (log : Log) (o : Call Request) (os : List (Call Request)) (e : RpcError)
    → (c.stream log o).failure ≡ some e
    → Flown c log (o ∷ os) (err value_error, log ++ o ∷ [])
Flown-first c log o os e fails =
    subst (λ l. Flown c log (o ∷ os) (err value_error, l ++ o ∷ [])) (append-nil log)
      (broken [] os o e refl tt
        (subst (λ l. (c.stream l o).failure ≡ some e) (sym (append-nil log)) fails))

-- the loops as one loop over all orders
fly : Channel → List (Call Request) → Log → Returned (Option Response)
fly c [] log = (ok none, log)
fly c (o ∷ os) log =
    let rest = fly c os (log ++ o ∷ []) in
    elim (c.stream log o).failure [ none ↦ rest | some e ↦ (err value_error, log ++ o ∷ []) ]

fly-answered :
    (c : Channel) (o : Call Request) (os : List (Call Request)) (log : Log)
    → (c.stream log o).failure ≡ none
    → fly c (o ∷ os) log ≡ fly c os (log ++ o ∷ [])
unfolding fly
fly-answered c o os log p = rw (fly, p)

fly-fails :
    (c : Channel) (o : Call Request) (os : List (Call Request)) (log : Log) (e : RpcError)
    → (c.stream log o).failure ≡ some e
    → fly c (o ∷ os) log ≡ (err value_error, log ++ o ∷ [])
unfolding fly
fly-fails c o os log e p = rw (fly, p)

fly-Flown :
    (c : Channel) (orders : List (Call Request)) (log : Log) → Flown c log orders (fly c orders log)
unfolding fly
fly-Flown c [] log = subst (λ l. Flown c log [] (ok none, l)) (append-nil log) (whole tt)
fly-Flown c (o ∷ os) log = elim (Option-cases (c.stream log o).failure) [
  | inl p ↦
      subst (Flown c log (o ∷ os)) (sym (fly-answered c o os log p))
        (Flown-later c log o os (fly c os (log ++ o ∷ [])) p (fly-Flown c os (log ++ o ∷ [])))
  | inr (e, p) ↦
      subst (Flown c log (o ∷ os)) (sym (fly-fails c o os log e p)) (Flown-first c log o os e p)
]

goto-outcome :
    (c : Channel) (one : ℕ) (p : Waypoint) (log : Log)
    → execute_move c (goto one p) log
      ≡ (reply true c log (order_to one p), log ++ order_to one p ∷ [])
unfolding goto execute_move set_global_position run_streaming internal_call control
goto-outcome c one p log = stream-reply c log (order_to one p)

visit_points-fly :
    (c : Channel) (one : ℕ) (ps : List Waypoint) (log : Log)
    → visit_points c one ps log ≡ fly c (map (order_to one) ps) log
unfolding fly visit_points reply
visit_points-fly c one [] log = refl
visit_points-fly c one (p ∷ ps) log =
    ap (λ out. elim out.0 [ err e ↦ (err e, out.1) | ok r ↦ visit_points c one ps out.1 ])
      (goto-outcome c one p log)
    ∙ elim (Option-cases (c.stream log (order_to one p)).failure) [
      | inl e ↦ rw (reply, e) (visit_points-fly c one ps (log ++ order_to one p ∷ []))
      | inr (f, e) ↦ rw (reply, e)
    ]

-- Go on with what was sent, if nothing was raised.
abbrev and_then :
    Returned (Option Response) → (Log → Returned (Option Response)) → Returned (Option Response)
and_then out more = elim out.0 [ err e ↦ (err e, out.1) | ok r ↦ more out.1 ]

fly-append :
    (c : Channel) (os rest : List (Call Request)) (log : Log)
    → fly c (os ++ rest) log ≡ and_then (fly c os log) (λ l. fly c rest l)
unfolding fly
fly-append c [] rest log = refl
fly-append c (o ∷ os) rest log =
    let more : Returned (Option Response) → Returned (Option Response) =
      λ out. and_then out (λ l. fly c rest l) in
    elim (Option-cases (c.stream log o).failure) [
      | inl e ↦
          fly-answered c o (os ++ rest) log e
          ∙ fly-append c os rest (log ++ o ∷ [])
          ∙ ap more (sym (fly-answered c o os log e))
      | inr (f, e) ↦ fly-fails c o (os ++ rest) log f e ∙ ap more (sym (fly-fails c o os log f e))
    ]

and_then-same :
    (out : Returned (Option Response)) (f g : Log → Returned (Option Response))
    → ((l : Log) → f l ≡ g l)
    → and_then out f ≡ and_then out g
and_then-same (ok r, l) f g h = h l
and_then-same (err e, l) f g h = refl

visit_areas-fly :
    (c : Channel) (one : ℕ) (areas : Dict (List Waypoint)) (log : Log)
    → visit_areas c one areas log ≡ fly c (map (order_to one) (all_waypoints areas)) log
unfolding visit_areas fly
visit_areas-fly c one [] log = refl
visit_areas-fly c one ((name, points) ∷ areas) log =
    let orders = map (order_to one) points in
    let others = map (order_to one) (all_waypoints areas) in
    ap (λ out. and_then out (λ l. visit_areas c one areas l)) (visit_points-fly c one points log)
    ∙ and_then-same (fly c orders log) (λ l. visit_areas c one areas l) (λ l. fly c others l)
        (visit_areas-fly c one areas)
    ∙ sym (fly-append c orders others log)
    ∙ ap (λ os. fly c os log) (sym (map-append (order_to one) points (all_waypoints areas)))

-- A patrol whose waypoints are calculated orders the vehicle to them in their order, whatever statuses
-- the kernel answers with. If no order's stream ends in an RPC error, each waypoint is ordered exactly
-- once and the patrol returns None. Otherwise it raises a ValidationError at the first order that does,
-- and orders nothing behind it.
pub patrol-Visited :
    (c : Channel) (one : ℕ) (areas : Dict (List Waypoint)) (log : Log)
    → (out : Returned (Option Response)) × (patrol c one (some (ok areas)) log ≡ some out)
      × Flown c log (map (order_to one) (all_waypoints areas)) out
unfolding patrol
patrol-Visited c one areas log =
    let orders = map (order_to one) (all_waypoints areas) in
    (fly c orders log, ap some (visit_areas-fly c one areas log), fly-Flown c orders log)
