-- ===== src/Backend/Wizard/Steps.antt =====
-- backend/server/setup_wizard.py: the steps that put one value into the context.
use steeleagle.Prelude.{
  ℕ, suc, ◌≤◌, String, ◌≡◌, refl, sym, subst, Bool, true, false, Option, some, List, arith,
  if◌then◌else◌, os_error, Result, ok, err, ◌>>=◌, ok_inj, insert,
}
use steeleagle.Prelude.Int.{ℤ, pos}
use steeleagle.Backend.Wizard.{number, fraction, text, Context, World, input, download_coco_model}
use steeleagle.Backend.Wizard.Kinds.{
  Kind, name, unit_interval, positive, whole, kind_of, FitsKind, Typed, insert-Typed, input-Fits,
}

-- Whatever a step returns is typed.
abbrev pub Returns : Result Context → Type 0
Returns (err fault) = Unit
Returns (ok c) = Typed c

pub bind-Returns :
    {A : Type 0} (r : Result A) (f : A → Result Context)
    → ((a : A) → r ≡ ok a → Returns (f a))
    → Returns (r >>= f)
bind-Returns (err fault) f h = tt
bind-Returns (ok a) f h = h a refl

pub if-Returns :
    (b : Bool) (r s : Result Context) → Returns r → Returns s → Returns (if b then r else s)
if-Returns true r s p q = p
if-Returns false r s p q = q

pub if-Typed : (b : Bool) (c d : Context) → Typed c → Typed d → Typed (if b then c else d)
if-Typed true c d p q = p
if-Typed false c d p q = q

pub returned-Typed : (r : Result Context) (c : Context) → Returns r → r ≡ ok c → Typed c
returned-Typed (err fault) c h e = cc
returned-Typed (ok d) c h e = subst Typed (ok_inj e) h

pub put_name :
    (k : String) (ts : List String) (c : Context)
    → kind_of k ≡ some name
    → Typed c
    → Typed (insert k (input ts) c)
put_name k ts c named typed =
    insert-Typed k (input ts) c
      (subst (λ (kind : Option Kind). FitsKind kind (input ts)) (sym named) (input-Fits ts)) typed

-- A number between two bounds, in the context.
pub put_whole :
    (k : String) (low high : ℕ) (a : ℤ) (c : Context)
    → kind_of k ≡ some (whole (suc low) high)
    → (n : ℕ) × (a ≡ pos n) × (suc low ≤ n) × (suc n ≤ suc high)
    → Typed c
    → Typed (insert k (number a) c)
put_whole k low high a c kind (n, same, above, below) typed =
    insert-Typed k (number a) c (rw (kind, same) (above, omega arith)) typed

pub put_positive :
    (k : String) (a : ℤ) (c : Context)
    → kind_of k ≡ some positive
    → (n : ℕ) × (a ≡ pos n) × (1 ≤ n)
    → Typed c
    → Typed (insert k (number a) c)
put_positive k a c kind (n, same, above) typed =
    insert-Typed k (number a) c (rw (kind, same) above) typed

pub put_threshold :
    (k : String) (a : ℤ) (c : Context)
    → kind_of k ≡ some unit_interval
    → (n : ℕ) × (a ≡ pos n) × (1 ≤ n) × (suc n ≤ 1000)
    → Typed c
    → Typed (insert k (fraction a) c)
put_threshold k a c kind (n, same, above, below) typed =
    insert-Typed k (fraction a) c (rw (kind, same) (above, omega arith)) typed

pub download-Returns : (w : World) (c : Context) → Typed c → Returns (download_coco_model w c)
unfolding download_coco_model
download-Returns w c typed =
    if-Returns w.downloads (ok (insert "detection_model" (text "coco") c)) (err os_error)
      (insert-Typed "detection_model" (text "coco") c tt typed) tt
