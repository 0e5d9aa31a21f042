-- ===== src/Dsl/Events/Results/Colors.antt =====
-- sdk/src/steeleagle_sdk/dsl/types/events/singulars/singulars.py: when `HSVReached` returns.
use steeleagle.Prelude.{
  ℕ, String, ◌≡◌, refl, ◌↔◌, ◌⊎◌, inl, inr, Bool, true, false, ◌&&◌, ◌||◌, Option, none, some,
  arith, ◌==◌, if◌then◌else◌, Bool-cases, In, any-In, In-any,
}
use steeleagle.Prelude.Int.{ℤ}
use steeleagle.Dsl.Events.{given, near}
use steeleagle.Dsl.Events.Fields.{Near, given_iff, near3_iff}
use steeleagle.Dsl.Events.Results.{
  ComputeResult, FrameResult, Hsv, Payload, component_fits, is_given, matches_hsv, hsv_round,
}

-- A target gives at least one component, and each one that it gives is close to a reported one.
pub record IsClose (target : Hsv) (tol : ℕ) (a : Hsv) : Type 0 where
  pub hue : Near tol target.h a.h
  pub saturation : Near tol target.s a.s
  pub value : Near tol target.v a.v
  pub some_given : is_given target.h || is_given target.s || is_given target.v ≡ true

component_fits-near : (tol : ℕ) (t a : Option ℤ) → component_fits tol t a ≡ near tol t a
unfolding component_fits near
component_fits-near tol none a = refl
component_fits-near tol (some t) none = refl
component_fits-near tol (some t) (some a) = refl

matches_hsv_iff :
    (target : Hsv) (tol : ℕ) (a : Hsv) → (matches_hsv target tol a ≡ true) ↔ IsClose target tol a
unfolding matches_hsv
matches_hsv_iff target tol a = (
  λ h.
      let same : (near tol target.h a.h && near tol target.s a.s && near tol target.v a.v ≡ true)
          × (is_given target.h || is_given target.s || is_given target.v ≡ true) =
        (
          ground (
            arith,
            h,
            component_fits-near tol target.h a.h,
            component_fits-near tol target.s a.s,
            component_fits-near tol target.v a.v,
          ),
          ground (arith, h),
        ) in
      let (x, y, z) = (near3_iff tol _ _ _ _ _ _).0 same.0 in
      record { hue = x; saturation = y; value = z; some_given = same.1 },
  λ h.
      let all_near : near tol target.h a.h && near tol target.s a.s && near tol target.v a.v
          ≡ true =
        (near3_iff tol _ _ _ _ _ _).1 (h.hue, h.saturation, h.value) in
      ground (
        arith,
        all_near,
        h.some_given,
        component_fits-near tol target.h a.h,
        component_fits-near tol target.s a.s,
        component_fits-near tol target.v a.v,
      ),
)

module _ (loads : String → Option Payload) where
  -- a result of a message that passes
  pub record Passes (target : Hsv) (tol : ℕ) (res : FrameResult) : Type 0 where
    pub compute : ComputeResult
    pub among : In compute res
    pub text : String
    pub reported : compute.generic_result ≡ some text
    pub filled : (text == "") ≡ false
    pub payload : Payload
    pub decoded : loads text ≡ some payload
    pub verdict : (payload.hsv_pass ≡ true) ⊎ IsClose target tol payload.values

  abbrev text_passes : Hsv → ℕ → String → Bool
  text_passes target tol text =
      if text == ""
      then false
      else given (loads text) (λ (p : Payload). p.hsv_pass || matches_hsv target tol p.values)

  abbrev passes_in : Hsv → ℕ → ComputeResult → Bool
  passes_in target tol compute = given compute.generic_result (text_passes target tol)

  or_iff : (a b : Bool) → (a || b ≡ true) ↔ ((a ≡ true) ⊎ (b ≡ true))
  or_iff true b = (λ h. inl refl, λ h. refl)
  or_iff false b = (λ h. inr h, λ o. elim o [ inl e ↦ absurd cc | inr e ↦ e ])

  text_passes-found :
      (target : Hsv) (tol : ℕ) (text : String)
      → text_passes target tol text ≡ true
      → ((text == "") ≡ false)
        × (given (loads text) (λ (p : Payload). p.hsv_pass || matches_hsv target tol p.values)
            ≡ true)
  text_passes-found target tol text h = elim (Bool-cases (text == "")) [
    | inl e ↦ absurd (ground (arith, h, e))
    | inr e ↦ (e, rw e at h)
  ]

  -- A round of `HSVReached` returns exactly if some result of the message carries a text, not empty,
  -- that decodes to a payload which says that it passes, or whose values are within the tolerance of
  -- each component that the target gives, of which there is at least one.
  hsv_round-Passes :
      (target : Hsv) (tol : ℕ) (res : FrameResult)
      → (hsv_round loads target tol res ≡ true) ↔ Passes target tol res
  unfolding hsv_round
  hsv_round-Passes target tol res = (
    λ h.
        let (c, m, h1) = any-In (passes_in target tol) res h in
        let (t, e, h2) = (given_iff _ _).0 h1 in
        let (f, h3) = text_passes-found target tol t h2 in
        let (p, g, h4) = (given_iff _ _).0 h3 in
        record {
          compute = c;
          among = m;
          text = t;
          reported = e;
          filled = f;
          payload = p;
          decoded = g;
          verdict = elim ((or_iff _ _).0 h4) [
            | inl x ↦ inl x
            | inr x ↦ inr ((matches_hsv_iff target tol p.values).0 x)
          ];
        },
    λ h. In-any (passes_in target tol) h.among (
        (given_iff _ _).1 (
          h.text,
          h.reported,
          rw h.filled (
              (given_iff _ _).1 (
                h.payload,
                h.decoded,
                (or_iff _ _).1 (elim (h.verdict) [
                  | inl x ↦ inl x
                  | inr x ↦ inr ((matches_hsv_iff target tol (h.payload).values).1 x)
                ]),
              )),
        )),
  )
