-- ===== src/Dsl/Tests.antt =====
-- sdk/src/steeleagle_sdk/dsl: the theorems at small missions and messages.
use steeleagle.Prelude.{ℕ, ◌≤◌, String, ◌≡◌, refl, ◌↔◌, true, none, some, [], ◌∷◌}
use steeleagle.Prelude.Int.{ℤ, pos}
use steeleagle.Dsl.Registry.{get}
use steeleagle.Dsl.Transformer.{initial, transform, build}
use steeleagle.Dsl.Transformer.Edges.{edge}
use steeleagle.Dsl.Transformer.Rules.{last_rule, declares, build-edge}
use steeleagle.Dsl.Resolver.{resolve_symbols, resolve_data, resolve_actions, resolve_events}
use steeleagle.Dsl.Validator.{
  compile, validate_mission_ir, validate_data, validate_actions, validate_events,
}
use steeleagle.Dsl.Validator.Compiled.{Compiled, compile-Compiled}
use steeleagle.Dsl.Events.{Telemetry, battery_reached, check, deg_diff, fits}
use steeleagle.Dsl.Events.Angles.{deg_diff-Circular}
use steeleagle.Dsl.Events.Rounds.{IsReached}
use steeleagle.Dsl.Events.Reached.{fits_iff}
use steeleagle.Dsl.Events.Checks.{FirstReport, check-First}
use steeleagle.Dsl.Events.Results.{Detection, FrameResult}
use steeleagle.Dsl.Samples.{schema, tour, compiled}

build-edge_example :
    edge (build (transform {M = String} initial tour)).transitions "tour" "done" ≡ some "terminate"
unfolding last_rule declares
build-edge_example = build-edge String tour "tour" "done"

compile-Compiled_example : Compiled schema tour compiled
unfolding compile resolve_symbols validate_mission_ir transform build get resolve_data
    resolve_actions resolve_events validate_data validate_actions validate_events
compile-Compiled_example = compile-Compiled schema tour compiled refl

abbrev flat : ℤ → ℤ → ℤ → ℤ → ℕ
flat a b c d = 0

abbrev battery_at : ℕ → Telemetry
battery_at n = record {
  vehicle_info = some (record { battery_info = some (some (pos n)); gps_info = none });
  position_info = none;
  gimbal_info = none;
}

check-First_example :
    (check flat (battery_reached (pos 30)) (some (battery_at 50) ∷ none ∷ some (battery_at 20) ∷ [])
      ≡ some 2)
    ↔ FirstReport flat
        (battery_reached (pos 30))
        (some (battery_at 50) ∷ none ∷ some (battery_at 20) ∷ [])
        2
check-First_example =
    check-First flat (battery_reached (pos 30))
      (some (battery_at 50) ∷ none ∷ some (battery_at 20) ∷ []) 2

fits_iff_example :
    (fits flat (battery_reached (pos 30)) (battery_at 20) ≡ true)
    ↔ IsReached flat (battery_reached (pos 30)) (battery_at 20)
fits_iff_example = fits_iff flat (battery_reached (pos 30)) (battery_at 20)

deg_diff-Circular_example :
    (deg_diff (pos 350000) (pos 10000) ≤ 180000)
    × (deg_diff (pos 350000) (pos 10000) ≡ deg_diff (pos 10000) (pos 350000))
    × (deg_diff (pos 350000) (pos 350000) ≡ 0)
deg_diff-Circular_example = deg_diff-Circular (pos 350000) (pos 10000)

abbrev car : Detection
car = record { class_name = some "car"; score = some (pos 800) }

abbrev street : FrameResult
street = record { detection_result = some (none ∷ some car ∷ []); generic_result = none } ∷ []

abbrev any_boat : Detection
any_boat = record { class_name = some "boat"; score = none }
