-- ===== src/Sdk/Times/Nanos.antt =====
-- sdk/src/steeleagle_sdk/api/datatypes/duration.py: the nanoseconds of a duration that is read from a text.
use steeleagle.Prelude.{
  ℕ, zero, suc, ◌^◌, ◌+◌, ◌-◌, ◌*◌, ◌≤◌, String, ◌≡◌, sym, ap, ◌∙◌, subst, inl, inr, Bool, true,
  false, some, List, [], ◌∷◌, arith, leb, eqb, Bool-cases, Option-cases, length, All, Result, ok,
  err, codes,
}
use native.Mathlib.Nat.{pow-suc, mul_assoc, add-sub_of_le}
use steeleagle.Prelude.Int.{ℤ, pos}
use steeleagle.Dsl.Registry.{strip_left, strip_right}
use steeleagle.Sdk.Times.{
  text, Time, is_digit, digits, number, nanos_of, fraction, unsigned_time, matched,
  parse_wkt_duration,
}

-- Every code point is a digit.
abbrev Digits : List ℕ → Type 0
Digits ds = All (λ (c : ℕ). is_digit c ≡ true) ds

digits-Digits : (s : List ℕ) → Digits (digits s).0
unfolding digits
digits-Digits [] = tt
digits-Digits (c ∷ s) = elim (Bool-cases (is_digit c)) [
  | inl e ↦ rw e (e, digits-Digits s)
  | inr e ↦ rw e tt
]

digit_step : (n m d : ℕ) → suc n ≤ m → is_digit d ≡ true → suc (10 * n + (d - b'0')) ≤ m * 10
digit_step n m d less digit = ground arith

n_one : (m : ℕ) → m * 10 ^ 0 ≡ m
n_one m = omega arith

shift : (m k : ℕ) → m * 10 * 10 ^ k ≡ m * 10 ^ suc k
shift m k = rw (pow-suc 10 k) (grind arith)

number-bound :
    (n m : ℕ) (ds : List ℕ) → suc n ≤ m → Digits ds → suc (number n ds) ≤ m * 10 ^ length ds
unfolding number
number-bound n m [] less all_digits = subst (λ k. suc n ≤ k) (sym (n_one m)) less
number-bound n m (d ∷ ds) less (digit, more) =
    let step : suc (10 * n + (d - b'0')) ≤ m * 10 = digit_step n m d less digit in
    let rest = number-bound (10 * n + (d - b'0')) (m * 10) ds step more in
    subst (λ k. suc (number (10 * n + (d - b'0')) ds) ≤ k) (shift m (length ds)) rest

one_times : (k : ℕ) → 1 * k ≡ k
one_times k = omega arith

ten_step : (x y : ℕ) → suc x ≤ y → suc (x * 10) ≤ y * 10
ten_step x y less = omega arith

less_by : {x y x' y' : ℕ} → x' ≡ x → y' ≡ y → suc x ≤ y → suc x' ≤ y'
less_by e f less = rw (e, f) less

pushed : (n j : ℕ) → n * 10 ^ suc j ≡ n * 10 ^ j * 10
pushed n j = rw (pow-suc 10 j) (sym (mul_assoc n (10 ^ j) 10))

raised : (n k j : ℕ) → suc n ≤ 10 ^ k → suc (n * 10 ^ j) ≤ 10 ^ k * 10 ^ j
raised n k zero less = less_by (n_one n) (n_one (10 ^ k)) less
raised n k (suc j) less =
    less_by (pushed n j) (pushed (10 ^ k) j)
      (ten_step (n * 10 ^ j) (10 ^ k * 10 ^ j) (raised n k j less))

power_at : {x y : ℕ} → x ≡ y → 10 ^ x ≡ 10 ^ y
power_at e = ap (λ (x : ℕ). 10 ^ x) e

ten_powers : (k j : ℕ) → 10 ^ k * 10 ^ j ≡ 10 ^ (k + j)
ten_powers k zero = n_one (10 ^ k) ∙ power_at (omega arith)
ten_powers k (suc j) =
    pushed (10 ^ k) j
    ∙ ap (λ (x : ℕ). x * 10) (ten_powers k j)
    ∙ sym (pow-suc 10 (k + j))
    ∙ power_at (omega arith)

back : (k : ℕ) → k ≤ 9 → 10 ^ k * 10 ^ (9 - k) ≡ 10 ^ 9
back k short = ten_powers k (9 - k) ∙ power_at (add-sub_of_le short)

scaled : (n k : ℕ) → suc n ≤ 10 ^ k → k ≤ 9 → suc (n * 10 ^ (9 - k)) ≤ 10 ^ 9
scaled n k less short =
    subst (λ x. suc (n * 10 ^ (9 - k)) ≤ x) (back k short) (raised n k (9 - k) less)

nanos_of-bound : (ds : List ℕ) → length ds ≤ 9 → Digits ds → suc (nanos_of ds) ≤ 10 ^ 9
unfolding nanos_of
nanos_of-bound ds short all_digits =
    scaled (number 0 ds) (length ds)
      (subst (λ k. suc (number 0 ds) ≤ k) (one_times (10 ^ length ds))
        (number-bound 0 1 ds (omega arith) all_digits))
      short

fraction-bound : (s : List ℕ) → (n : ℕ) → fraction s ≡ some n → suc n ≤ 10 ^ 9
unfolding fraction
fraction-bound [] n e = ground arith
fraction-bound (c ∷ s) n e =
    let bound = nanos_of-bound (digits s).0 in let all_digits = digits-Digits s in ground arith

-- Less than a second of nanoseconds
abbrev Fractional : ℤ → Type 0
Fractional n = (k : ℕ) × ((n ≡ pos k) × (suc k ≤ 10 ^ 9))

abbrev read_nanos : Result Time → ℤ
read_nanos (err fault) = pos 0
read_nanos (ok t) = t.nanos

nanos_read : {r : Result Time} {t : Time} → r ≡ ok t → t.nanos ≡ read_nanos r
nanos_read e = ap read_nanos (sym e)

unsigned_time-Fractional :
    (negative : Bool) (s : List ℕ) (t : Time) → unsigned_time negative s ≡ ok t → Fractional t.nanos
unfolding unsigned_time
unsigned_time-Fractional negative s t e = elim (Bool-cases (leb 1 (length (digits s).0))) [
  | inl some_digits ↦ elim (Option-cases (fraction (digits s).1)) [
    | inl unread ↦ ground arith
    | inr (k, read) ↦
        (k, (nanos_read (rw (some_digits, read) at e), fraction-bound (digits s).1 k read))
  ]
  | inr no_digits ↦ ground arith
]

matched-Fractional : (s : List ℕ) (t : Time) → matched s ≡ ok t → Fractional t.nanos
unfolding matched
matched-Fractional [] t e = ground arith
matched-Fractional (c ∷ s) t e = elim (Bool-cases (eqb c b'-')) [
  | inl minus ↦ unsigned_time-Fractional true s t (rw minus at e)
  | inr plus ↦ unsigned_time-Fractional false (c ∷ s) t (rw plus at e)
]

-- A duration that is read from a text has between 0 and 999,999,999 nanoseconds, whatever its sign.
parse_wkt_duration-Fractional :
    (s : String) (t : Time) → parse_wkt_duration (text s) ≡ ok t → Fractional t.nanos
unfolding parse_wkt_duration
parse_wkt_duration-Fractional s t e = matched-Fractional (strip_right (strip_left (codes s))) t e
