-- ===== src/Dsl/Events/Results.antt =====
-- sdk/src/steeleagle_sdk/dsl/types/events/singulars/singulars.py: the events of the compute results,
-- over the messages that `fetch_results` gives. Scores are thousandths; `json.loads` is a parameter.
pub mod Detections
pub mod Colors
use steeleagle.Prelude.{
  ℕ, suc, String, Bool, true, false, ◌&&◌, ◌||◌, Option, none, some, List, [], ◌∷◌, ◌==◌, leb,
  if◌then◌else◌, any, attribute_error, Result, ok, err,
}
use steeleagle.Prelude.Int.{ℤ, ◌-ℤ◌, ◌≤ℤ◌, abs, leb_ℤ}
use steeleagle.Dsl.Events.{given}

-- The parts of dsl/types/datatypes/result.py that the events read.
pub record Detection : Type 0 where
  pub class_name : Option String
  pub score : Option ℤ

pub record ComputeResult : Type 0 where
  pub detection_result : Option (List (Option Detection))
  pub generic_result : Option String

-- `FrameResult` with its `result`
abbrev pub FrameResult : Type 0
FrameResult = List ComputeResult

-- `HSV`
pub record Hsv : Type 0 where
  pub h : Option ℤ
  pub s : Option ℤ
  pub v : Option ℤ

-- The payload that a JSON text decodes to: whether `hsv_pass` is true, and the three values.
pub record Payload : Type 0 where
  pub hsv_pass : Bool
  pub values : Hsv

unfoldable pub class_fits : Option String → Option String → Bool
class_fits none cls = true
class_fits (some want) none = false
class_fits (some want) (some cls) = cls == want

unfoldable pub score_fits : Option ℤ → Option ℤ → Bool
score_fits none score = true
score_fits (some least) none = false
score_fits (some least) (some score) = leb_ℤ least score

-- `_matches_target`
unfoldable pub matches_target : Detection → Detection → Bool
unfolding class_fits score_fits
matches_target target det =
    class_fits target.class_name det.class_name && score_fits target.score det.score

-- the loops over a message's results and their detections
unfoldable pub detection_round : Detection → FrameResult → Bool
unfolding matches_target
detection_round target res =
    any
      (λ (compute : ComputeResult).
        given compute.detection_result
          (any (λ (det : Option Detection). given det (matches_target target))))
      res

-- `close`
unfoldable pub close : ℕ → Option ℤ → Option ℤ → Bool
close tol (some a) (some b) = leb (abs (a -ℤ b)) tol
close tol _ _ = false

-- one of the three ifs of `_matches_hsv`
unfoldable pub component_fits : ℕ → Option ℤ → Option ℤ → Bool
unfolding close
component_fits tol none a = true
component_fits tol (some t) a = close tol a (some t)

unfoldable pub is_given : Option ℤ → Bool
is_given none = false
is_given (some t) = true

-- `_matches_hsv`: a target with no component matches nothing.
unfoldable pub matches_hsv : Hsv → ℕ → Hsv → Bool
unfolding component_fits is_given
matches_hsv target tol a =
    component_fits tol target.h a.h
    && component_fits tol target.s a.s
    && component_fits tol target.v a.v
    && (is_given target.h || is_given target.s || is_given target.v)

unfoldable pub hsv_round : (String → Option Payload) → Hsv → ℕ → FrameResult → Bool
unfolding matches_hsv
hsv_round loads target tol res =
    any
      (λ (compute : ComputeResult). given compute.generic_result (λ (text : String).
        if text == ""
        then false
        else given (loads text) (λ (p : Payload). p.hsv_pass || matches_hsv target tol p.values)))
      res

pub data ResultEvent : Type 0 where
  detection_found : Detection → ResultEvent
  hsv_reached : Hsv → ℕ → ResultEvent

unfoldable pub result_fits : (String → Option Payload) → ResultEvent → FrameResult → Bool
unfolding detection_round hsv_round
result_fits loads (detection_found target) res = detection_round target res
result_fits loads (hsv_reached target tol) res = hsv_round loads target tol res

-- `check` over what the fetches give: the round that it returns in, `none` while it waits. A fetch
-- that gives None raises an AttributeError at `res.result`.
unfoldable pub check_results :
    (String → Option Payload) → ResultEvent → List (Option FrameResult) → Result (Option ℕ)
unfolding result_fits
check_results loads ev [] = ok none
check_results loads ev (none ∷ feed) = err attribute_error
check_results loads ev (some res ∷ feed) =
    let rest = check_results loads ev feed in
    if result_fits loads ev res then ok (some 0) else (elim rest [
      | err e ↦ err e
      | ok o ↦ elim o [ none ↦ ok none | some n ↦ ok (some (suc n)) ]
    ])

-- `fetch_results` of dsl/types/utils.py: it awaits the result and returns nothing.
unfoldable pub fetch_results : Option FrameResult → Option FrameResult
fetch_results latest = none
