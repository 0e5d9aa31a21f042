-- ===== src/Backend/Wizard/Kinds.antt =====
-- backend/server/setup_wizard.py: the kinds of the settings that the wizard leaves.
use steeleagle.Prelude.{
  ℕ, zero, suc, ◌*◌, ◌≤◌, String, ◌≡◌, refl, sym, ◌∙◌, subst, inl, inr, Bool, true, false, Option,
  none, some, List, [], ◌∷◌, ◌++◌, arith, ◌==◌, eq_iff, if◌then◌else◌, Bool-cases, Option-cases,
  some_inj, In, here, there, All, In-append_left, In-append_right, mem, ok, insert,
}
use steeleagle.Prelude.Int.{ℤ, pos, negsuc}
use steeleagle.Backend.Wizard.{
  Setting, flag, number, fraction, text, nothing, Context, Conversions, User, World,
  metric3d_models, midas_models, defaults, entered, input, choice, is_between, is_positive,
  converted, depth_model,
}

-- What a setting may be.
pub data Kind : Type 0 where
  yes_or_no name unit_interval web_port positive : Kind
  whole : ℕ → ℕ → Kind
  one_of : List String → Kind

abbrev pub depth_models : List String
depth_models = metric3d_models ++ midas_models

-- the settings, by their kinds
abbrev pub kind_of : String → Option Kind
kind_of k =
    if mem k (
      "one_tag_to_rule_them_all" ∷ "store_imagery" ∷ "use_metric3d" ∷ "use_custom_model"
      ∷ "geofence" ∷ "use_default_configuration" ∷ "use_defaults_avoidance"
      ∷ "use_defaults_detection" ∷ [])
    then some yes_or_no
    else if mem k (
        "one_tag" ∷ "detection_model" ∷ "exclusions" ∷ "terraslam_host" ∷ "webserver_url"
        ∷ "geofence_file" ∷ "redis_pw" ∷ "streamlit_pw" ∷ "gabriel_image_tag"
        ∷ "telemetry_image_tag" ∷ "obstacle_image_tag" ∷ "object_image_tag" ∷ "slam_image_tag"
        ∷ "sc_image_tag" ∷ [])
    then some name
    else if mem k ("detection_threshold" ∷ "hsv_threshold" ∷ [])
    then some unit_interval
    else if mem k ("object_ttl" ∷ "object_diff_radius" ∷ [])
    then some positive
    else if k == "gabriel_tokens"
    then some (whole 1 29)
    else if k == "depth_threshold"
    then some (whole 1 254)
    else if k == "depth_model"
    then some (one_of depth_models)
    else if k == "webserver_port"
    then some web_port
    else none

-- A name may be None, where its dialog was cancelled; a port is a whole number, also as a fraction.
abbrev pub Fits : Kind → Setting → Type 0
Fits yes_or_no (flag b) = Unit
Fits name (text t) = Unit
Fits name nothing = Unit
Fits (one_of names) (text t) = In t names
Fits (one_of names) nothing = Unit
Fits (whole low high) (number (pos n)) = (low ≤ n) × (n ≤ high)
Fits positive (number (pos n)) = 1 ≤ n
Fits unit_interval (fraction (pos n)) = (1 ≤ n) × (n ≤ 999)
Fits web_port (number (pos n)) = (1025 ≤ n) × (n ≤ 65534)
Fits web_port (fraction x) = (n : ℕ) × (x ≡ pos (1000 * n)) × (1025 ≤ n) × (n ≤ 65534)
Fits _ _ = ⊥

abbrev pub FitsKind : Option Kind → Setting → Type 0
FitsKind none s = ⊥
FitsKind (some kind) s = Fits kind s

-- Every setting is one of the table's, and of its kind.
abbrev pub Typed : Context → Type 0
Typed c = All (λ (e : String × Setting). FitsKind (kind_of e.0) e.1) c

pub insert-Typed :
    (k : String) (v : Setting) (c : Context)
    → FitsKind (kind_of k) v
    → Typed c
    → Typed (insert k v c)
unfolding insert
insert-Typed k v [] fits typed = (fits, tt)
insert-Typed k v ((j, w) ∷ c) fits (first, typed) = elim (Bool-cases (j == k)) [
  | inl same ↦
      rw same
        (subst (λ (x : String). FitsKind (kind_of x) v) (sym ((eq_iff j k).0 same)) fits, typed)
  | inr other ↦ rw other (first, insert-Typed k v c fits typed)
]

pub defaults-Typed : Typed defaults
defaults-Typed = (
  tt,
  (
    tt,
    (
      tt,
      (
        omega arith,
        (
          tt,
          (
            omega arith,
            (
              there here,
              (
                tt,
                (
                  tt,
                  (
                    omega arith,
                    (
                      omega arith,
                      (tt, (omega arith, (omega arith, (tt, (tt, (tt, (omega arith, tt))))))),
                    ),
                  ),
                ),
              ),
            ),
          ),
        ),
      ),
    ),
  ),
)

pub input-Fits : (ts : List String) → Fits name (input ts)
unfolding input
input-Fits [] = tt
input-Fits (t ∷ ts) = tt

choice-Fits :
    (p : Option ℕ) (values names : List String)
    → ((v : String) → In v values → In v names)
    → Fits (one_of names) (choice p values)
unfolding choice
choice-Fits none values names within = tt
choice-Fits (some n) [] names within = tt
choice-Fits (some zero) (v ∷ values) names within = within v here
choice-Fits (some (suc n)) (v ∷ values) names within =
    choice-Fits (some n) values names (λ u m. within u (there m))

pub depth_model-Fits :
    (py : Conversions) (user : User) (w : World) (metric3d : Bool)
    → Fits (one_of depth_models) (depth_model py user w metric3d)
unfolding depth_model
depth_model-Fits py user w true =
    choice-Fits (user.picked "Avoidance - Metric3D Model ") metric3d_models depth_models
      (λ v m. In-append_left midas_models m)
depth_model-Fits py user w false =
    choice-Fits (user.picked "Avoidance - MiDaS Model ") midas_models depth_models
      (λ v m. In-append_right metric3d_models m)

-- A dialog with a validator returns a text that passes.
pub entered-valid :
    (valid : String → Bool) (ts : List String) (t : String)
    → entered valid ts ≡ some t
    → valid t ≡ true
unfolding entered
entered-valid valid [] t e = cc
entered-valid valid (u ∷ ts) t e = ground (arith, entered-valid valid ts t)

-- The text that was converted, and its value.
pub converted-read :
    (read : String → Option ℤ) (o : Option String) (a : ℤ)
    → converted read o ≡ ok a
    → (t : String) × (o ≡ some t) × (read t ≡ some a)
unfolding converted
converted-read read none a e = cc
converted-read read (some t) a e = (t, refl, ground arith)

-- What a dialog with a validator comes to: a valid text and its value.
valid-read :
    (read : String → Option ℤ) (valid : String → Bool) (ts : List String) (a : ℤ)
    → converted read (entered valid ts) ≡ ok a
    → (t : String) × (valid t ≡ true) × (read t ≡ some a)
valid-read read valid ts a e =
    let (t, typed, value) = converted-read read (entered valid ts) a e in
    (t, entered-valid valid ts t typed, value)

pub between-value :
    (read : String → Option ℤ) (low high : ℕ) (t : String)
    → is_between read (pos low) (pos high) t ≡ true
    → (n : ℕ) × (read t ≡ some (pos n)) × (suc low ≤ n) × (suc n ≤ high)
unfolding is_between
between-value read low high t e = elim (Option-cases (read t)) [
  | inl unread ↦ absurd (ground arith)
  | inr (pos n, value) ↦ (n, value, ground arith, ground arith)
  | inr (negsuc n, value) ↦ absurd (ground arith)
]

positive-bounds :
    (read : String → Option ℤ) (t : String) (a : ℤ)
    → is_positive read t ≡ true
    → read t ≡ some a
    → (n : ℕ) × (a ≡ pos n) × (1 ≤ n)
unfolding is_positive
positive-bounds read t (pos n) e r = (n, refl, ground arith)
positive-bounds read t (negsuc n) e r = absurd (ground arith)

-- A number that a dialog takes between two bounds.
pub asked_between :
    (read : String → Option ℤ) (low high : ℕ) (ts : List String) (a : ℤ)
    → converted read (entered (is_between read (pos low) (pos high)) ts) ≡ ok a
    → (n : ℕ) × (a ≡ pos n) × (suc low ≤ n) × (suc n ≤ high)
asked_between read low high ts a e =
    let (t, passes, value) = valid-read read (is_between read (pos low) (pos high)) ts a e in
    let (n, same, above, below) = between-value read low high t passes in
    (n, some_inj (sym value ∙ same), above, below)

pub asked_positive :
    (read : String → Option ℤ) (ts : List String) (a : ℤ)
    → converted read (entered (is_positive read) ts) ≡ ok a
    → (n : ℕ) × (a ≡ pos n) × (1 ≤ n)
asked_positive read ts a e =
    let (t, passes, value) = valid-read read (is_positive read) ts a e in
    positive-bounds read t a passes value
