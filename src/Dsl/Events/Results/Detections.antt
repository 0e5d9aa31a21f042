-- ===== src/Dsl/Events/Results/Detections.antt =====
-- sdk/src/steeleagle_sdk/dsl/types/events/singulars/singulars.py: when the compute events return.
use steeleagle.Prelude.{
  String, ◌≡◌, refl, sym, ap, ◌∙◌, subst, ◌↔◌, Bool, true, false, Option, none, some, List, [], ◌∷◌,
  ◌++◌, map, arith, eq_iff, leb_iff, some_inj, any, In, All, any-In, In-any, attribute_error, err,
}
use steeleagle.Prelude.Int.{ℤ, ◌≤ℤ◌, leb_ℤ}
use steeleagle.Dsl.Events.{given}
use steeleagle.Dsl.Events.Fields.{given_iff}
use steeleagle.Dsl.Events.Results.{
  Detection, ComputeResult, FrameResult, Payload, class_fits, score_fits, matches_target,
  detection_round, ResultEvent, result_fits, check_results, fetch_results,
}

-- A detection that a target asks for: of its class if it names one, and with at least its score if it
-- gives one.
abbrev pub IsDetected : Detection → Detection → Type 0
IsDetected target det =
    ((cls : String) → target.class_name ≡ some cls → det.class_name ≡ some cls)
    × ((least : ℤ) → target.score ≡ some least → (s : ℤ) × (det.score ≡ some s) × (least ≤ℤ s))

class_fits_iff :
    (t c : Option String) → (class_fits t c ≡ true) ↔ ((cls : String) → t ≡ some cls → c ≡ some cls)
unfolding class_fits
class_fits_iff none c = (λ h cls e. absurd cc, λ h. refl)
class_fits_iff (some want) none = (λ h. absurd cc, λ h. absurd (let e = h want refl in cc))
class_fits_iff (some want) (some cls) = (
  λ h x e. ap some ((eq_iff cls want).0 h) ∙ e,
  λ h. (eq_iff cls want).1 (some_inj (h want refl)),
)

score_fits_iff :
    (t c : Option ℤ)
    → (score_fits t c ≡ true)
      ↔ ((least : ℤ) → t ≡ some least → (s : ℤ) × (c ≡ some s) × (least ≤ℤ s))
unfolding score_fits
score_fits_iff none c = (λ h x e. absurd cc, λ h. refl)
score_fits_iff (some t) none = (λ h. absurd cc, λ h. absurd (let (c, e, l) = h t refl in cc))
score_fits_iff (some t) (some c) = (
  λ h x e. (c, refl, subst (λ y. y ≤ℤ c) (some_inj e) ((leb_iff _ _).0 h)),
  λ h.
      let (d, e, l) = h t refl in
      subst (λ x. leb_ℤ t x ≡ true) (sym (some_inj e)) ((leb_iff _ _).1 l),
)

matches_target_iff :
    (target det : Detection) → (matches_target target det ≡ true) ↔ IsDetected target det
unfolding matches_target
matches_target_iff target det = (
  λ h. ((class_fits_iff _ _).0 (ground (arith, h)), (score_fits_iff _ _).0 (ground (arith, h))),
  λ (a, b). ground (
    arith,
    (class_fits_iff target.class_name det.class_name).1 a,
    (score_fits_iff target.score det.score).1 b,
  ),
)

abbrev found_in : Detection → ComputeResult → Bool
found_in target compute =
    given compute.detection_result
      (any (λ (det : Option Detection). given det (matches_target target)))

-- a detection among the results of a message
pub record Holds (target : Detection) (res : FrameResult) : Type 0 where
  pub compute : ComputeResult
  pub among : In compute res
  pub detections : List (Option Detection)
  pub reported : compute.detection_result ≡ some detections
  pub det : Detection
  pub listed : In (some det) detections
  pub wanted : IsDetected target det

-- A round of `DetectionFound` returns exactly if some result of the message reports a detection that
-- the target asks for: of its class if it names one, and with at least its score if it gives one.
detection_round-Holds :
    (target : Detection) (res : FrameResult)
    → (detection_round target res ≡ true) ↔ Holds target res
unfolding detection_round
detection_round-Holds target res = (
  λ h.
      let (c, m, h1) = any-In (found_in target) res h in
      let (ds, e, h2) = (given_iff _ _).0 h1 in
      let (o, n, h3) =
        any-In (λ (det : Option Detection). given det (matches_target target)) ds h2 in
      let (d, f, h4) = (given_iff o _).0 h3 in
      record {
        compute = c;
        among = m;
        detections = ds;
        reported = e;
        det = d;
        listed = subst (λ x. In x ds) f n;
        wanted = (matches_target_iff target d).0 h4;
      },
  λ h. In-any (found_in target) h.among (
      (given_iff _ _).1 (
        h.detections,
        h.reported,
        In-any (λ (det : Option Detection). given det (matches_target target)) h.listed
            ((matches_target_iff target h.det).1 h.wanted),
      )),
)

-- A fetch that gives None, behind messages that do not report the event, makes a compute event raise
-- an AttributeError, whatever comes later; so with what `fetch_results` gives, every one raises in its
-- first round.
check_results-raises :
    (loads : String → Option Payload) (ev : ResultEvent) (before : List FrameResult)
    (after : List (Option FrameResult))
    → All (λ res. result_fits loads ev res ≡ false) before
    → (check_results loads ev (map some before ++ none ∷ after) ≡ err attribute_error)
      × ((r : Option FrameResult)
          → check_results loads ev (map fetch_results (r ∷ after)) ≡ err attribute_error)
unfolding check_results fetch_results
check_results-raises loads ev [] after h = (refl, λ r. refl)
check_results-raises loads ev (res ∷ before) after h =
    (ground (arith, h.0, (check_results-raises loads ev before after h.1).0), λ r. refl)
