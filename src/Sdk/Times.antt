-- ===== src/Sdk/Times.antt =====
-- sdk/src/steeleagle_sdk/api/datatypes/duration.py and timestamp.py: how a Duration and a Timestamp are
-- read from the texts of JSON, of ASCII characters. A text is taken by its code points.
pub mod Nanos
use steeleagle.Prelude.{
  ℕ, zero, suc, ◌^◌, ◌+◌, ◌-◌, ◌*◌, String, Bool, true, false, ◌&&◌, Option, none, some, List, [],
  ◌∷◌, leb, eqb, if◌then◌else◌, length, value_error, attribute_error, Result, ok, err, codes,
}
use steeleagle.Prelude.Int.{ℤ, pos, negsuc}
use steeleagle.Dsl.Registry.{strip_left, strip_right}

-- what is given to a model: a text, or the two fields
pub data Given : Type 0 where
  text : String → Given
  fields : ℤ → ℤ → Given

pub record Time : Type 0 where
  pub seconds : ℤ
  pub nanos : ℤ

-- `parse_wkt_timestamp`: `datetime` is the module there, which has no `fromisoformat`.
unfoldable pub parse_wkt_timestamp : Given → Result Time
parse_wkt_timestamp (text s) = err attribute_error
parse_wkt_timestamp (fields seconds nanos) = ok (record { seconds = seconds; nanos = nanos })

abbrev pub is_digit : ℕ → Bool
is_digit c = leb b'0' c && leb c b'9'

-- `\d+`: the digits that a text starts with, and the rest
unfoldable pub digits : List ℕ → List ℕ × List ℕ
digits [] = ([], [])
digits (c ∷ s) = let (ds, rest) = digits s in if is_digit c then (c ∷ ds, rest) else ([], c ∷ s)

-- `int` of digits, behind the number that is read already
unfoldable pub number : ℕ → List ℕ → ℕ
number n [] = n
number n (d ∷ ds) = number (10 * n + (d - b'0')) ds

-- `int(frac.ljust(9, '0'))`
unfoldable pub nanos_of : List ℕ → ℕ
unfolding number
nanos_of frac = number 0 frac * 10 ^ (9 - length frac)

-- `s` at the end
unfoldable pub is_unit : List ℕ → Bool
is_unit [] = false
is_unit (c ∷ []) = eqb c b's'
is_unit (c ∷ d ∷ s) = false

-- Behind the whole digits: a point with one to nine digits, or none.
unfoldable pub fraction : List ℕ → Option ℕ
unfolding digits nanos_of is_unit
fraction [] = none
fraction (c ∷ s) =
    let (ds, rest) = digits s in
    if eqb c b'.'
    then (if leb 1 (length ds) && leb (length ds) 9 && is_unit rest
        then some (nanos_of ds)
        else none)
    else if is_unit (c ∷ s)
    then some 0
    else none

-- `int` of the whole digits with the sign
unfoldable pub signed : Bool → ℕ → ℤ
signed false n = pos n
signed true zero = pos 0
signed true (suc n) = negsuc n

unfoldable pub unsigned_time : Bool → List ℕ → Result Time
unfolding digits fraction signed number
unsigned_time negative s =
    let (ds, rest) = digits s in
    if leb 1 (length ds)
    then (elim (fraction rest) [
      | none ↦ err value_error
      | some n ↦ ok (record { seconds = signed negative (number 0 ds); nanos = pos n })
    ])
    else err value_error

-- the match of `_DUR_RE`
unfoldable pub matched : List ℕ → Result Time
unfolding unsigned_time
matched [] = err value_error
matched (c ∷ s) = if eqb c b'-' then unsigned_time true s else unsigned_time false (c ∷ s)

unfoldable pub parse_wkt_duration : Given → Result Time
unfolding matched strip_left strip_right
parse_wkt_duration (text s) = matched (strip_right (strip_left (codes s)))
parse_wkt_duration (fields seconds nanos) = ok (record { seconds = seconds; nanos = nanos })
