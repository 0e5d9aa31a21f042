-- ===== src/Backend/Delivery/Written.antt =====
-- The document of a mission, `asdict` and `json.dumps` of `CompileMission`: what it takes for it to be written.
use steeleagle.Prelude.{
  String, ◌≡◌, refl, Bool, true, false, ◌&&◌, Option, none, some, List, [], ◌∷◌, arith, All, Result,
  ok, err, Dict,
}
use steeleagle.Dsl.Ir.{
  Value, nil, flag, dict, Entries, no_entry, entry, array, inline, model, Values, end, item,
  Attributes,
}
use steeleagle.Dsl.Ir.{text as name_value, number as number_value}
use steeleagle.Backend.Delivery.{
  Json, Items, Members, boolean, string, no_member, put_member, put_item, object_of, list_of,
  json_value, json_values, json_entries, json_dict, json_object, json_text, json_edges, json_start,
}

-- no instance of a class stands in a value
abbrev mutual
  pub is_plain : {M : Type 0} → Value M → Bool
  is_plain nil = true
  is_plain (flag b) = true
  is_plain (name_value s) = true
  is_plain (number_value n) = true
  is_plain (array vs) = are_plain vs
  is_plain (inline t args) = are_plain args
  is_plain (dict es) = are_plain_entries es
  is_plain (model m) = false

  pub are_plain : {M : Type 0} → Values M → Bool
  are_plain end = true
  are_plain (item v vs) = is_plain v && are_plain vs

  pub are_plain_entries : {M : Type 0} → Entries M → Bool
  are_plain_entries no_entry = true
  are_plain_entries (entry key v es) = is_plain v && are_plain_entries es

-- It returns.
abbrev pub Returns : {A : Type 0} → Result A → Type 0
Returns {A} r = (a : A) × (r ≡ ok a)

pub put_member-Returns :
    (key : String) (value : Result Json) (rest : Result Members)
    → Returns value
    → Returns rest
    → Returns (put_member key value rest)
unfolding put_member
put_member-Returns key (err e) rest (j, p) r = cc
put_member-Returns key (ok j) (err e) p (m, q) = cc
put_member-Returns key (ok j) (ok m) p q = (_, refl)

put_item-Returns :
    (value : Result Json) (rest : Result Items)
    → Returns value
    → Returns rest
    → Returns (put_item value rest)
unfolding put_item
put_item-Returns (err e) rest (j, p) r = cc
put_item-Returns (ok j) (err e) p (m, q) = cc
put_item-Returns (ok j) (ok m) p q = (_, refl)

pub object_of-Returns : (m : Result Members) → Returns m → Returns (object_of m)
unfolding object_of
object_of-Returns (err e) (m, p) = cc
object_of-Returns (ok m) p = (_, refl)

list_of-Returns : (m : Result Items) → Returns m → Returns (list_of m)
unfolding list_of
list_of-Returns (err e) (m, p) = cc
list_of-Returns (ok m) p = (_, refl)

mutual
  unfolding json_value json_values json_entries

  json_value-Returns : {M : Type 0} (v : Value M) → is_plain v ≡ true → Returns (json_value v)
  json_value-Returns nil h = (_, refl)
  json_value-Returns (flag b) h = (_, refl)
  json_value-Returns (name_value s) h = (_, refl)
  json_value-Returns (number_value n) h = (_, refl)
  json_value-Returns (array vs) h = list_of-Returns (json_values vs) (json_values-Returns vs h)
  json_value-Returns (inline t args) h = object_of-Returns _ (
      put_member-Returns "__inline__" (ok (boolean true)) _ (_, refl)
        (put_member-Returns "type" (ok (string t)) _ (_, refl)
          (put_member-Returns "args" _ (ok no_member)
            (list_of-Returns (json_values args) (json_values-Returns args h)) (_, refl))))
  json_value-Returns (dict es) h = object_of-Returns (json_entries es) (json_entries-Returns es h)
  json_value-Returns (model m) h = cc

  json_values-Returns :
      {M : Type 0} (vs : Values M) → are_plain vs ≡ true → Returns (json_values vs)
  json_values-Returns end h = (_, refl)
  json_values-Returns (item v vs) h =
      put_item-Returns (json_value v) (json_values vs) (json_value-Returns v (ground arith))
        (json_values-Returns vs (ground arith))

  json_entries-Returns :
      {M : Type 0} (es : Entries M) → are_plain_entries es ≡ true → Returns (json_entries es)
  json_entries-Returns no_entry h = (_, refl)
  json_entries-Returns (entry key v es) h =
      put_member-Returns key (json_value v) (json_entries es) (json_value-Returns v (ground arith))
        (json_entries-Returns es (ground arith))

pub json_dict-Returns :
    {V : Type 0} (f : V → Result Json) (d : Dict V)
    → All (λ (e : String × V). Returns (f e.1)) d
    → Returns (json_dict f d)
unfolding json_dict
json_dict-Returns f [] h = (_, refl)
json_dict-Returns f ((key, v) ∷ d) (first, rest) =
    put_member-Returns key (f v) (json_dict f d) first (json_dict-Returns f d rest)

-- All values of the attributes are plain.
abbrev pub PlainAttributes : {M : Type 0} → Attributes M → Type 0
PlainAttributes attrs = All (λ (e : String × Value _). is_plain e.1 ≡ true) attrs

pub All-map :
    {A : Type 0} (P Q : A → Type 0) (xs : List A) → ((x : A) → P x → Q x) → All P xs → All Q xs
All-map P Q [] f h = tt
All-map P Q (x ∷ xs) f (p, h) = (f x p, All-map P Q xs f h)

pub json_object-Returns :
    {M : Type 0} (type_name id_key id : String) (attrs : Attributes M)
    → PlainAttributes attrs
    → Returns (json_object type_name id_key id attrs)
unfolding json_object
json_object-Returns {M} type_name id_key id attrs plain = object_of-Returns _ (
    put_member-Returns "type_name" (ok (string type_name)) _ (_, refl)
      (put_member-Returns id_key (ok (string id)) _ (_, refl)
        (put_member-Returns "attributes" _ (ok no_member)
          (object_of-Returns _ (
            json_dict-Returns json_value attrs (
              All-map (λ (e : String × Value M). is_plain e.1 ≡ true)
                (λ (e : String × Value M). Returns (json_value e.1)) attrs
                (λ e p. json_value-Returns e.1 p) plain)))
          (_, refl))))

pub All-each : {A : Type 0} (P : A → Type 0) (xs : List A) → ((x : A) → P x) → All P xs
All-each P [] f = tt
All-each P (x ∷ xs) f = (f x, All-each P xs f)

pub json_edges-Returns : (edges : Dict String) → Returns (json_edges edges)
unfolding json_edges json_text
json_edges-Returns edges = object_of-Returns _ (
    json_dict-Returns json_text edges
      (All-each (λ (e : String × String). Returns (json_text e.1)) edges (λ e. (_, refl))))

pub json_start-Returns : (start : Option String) → Returns (json_start start)
unfolding json_start
json_start-Returns none = (_, refl)
json_start-Returns (some a) = (_, refl)
