-- ===== src/Dsl/Validator/Built.antt =====
-- What the passes of the validator keep, and that what they return was built by a registered class.
use steeleagle.Prelude.{
  String, ◌≡◌, inl, inr, some, [], ◌∷◌, arith, Option-cases, All, ok, ◌>>=◌, >>=-eq-ok,
  Result-cases, Dict, keys,
}
use steeleagle.Dsl.Ir.{Attributes, ActionIr, EventIr, DatumIr}
use steeleagle.Dsl.Registry.{Table, get}
use steeleagle.Dsl.Resolver.{Schema, resolve_actions, resolve_object}
use steeleagle.Dsl.Validator.{normalized, validate_data, validate_actions, validate_events}

module _ (sc : Schema) where
  open sc use {Class, Model, construct, dump}

  -- The resolver and the validator keep the start, the transitions and the actions' ids.
  pub resolve_actions-keys :
      (actions : Dict (ActionIr Model)) (d : Dict (DatumIr Model)) (bs : Dict (ActionIr Model))
      → resolve_actions sc actions d ≡ ok bs
      → keys bs ≡ keys actions
  unfolding resolve_actions
  resolve_actions-keys [] d bs h = ground arith
  resolve_actions-keys ((aid, a) ∷ rest) d bs h =
      let (attrs, p, q) =
        >>=-eq-ok (resolve_object sc sc.actions a.type_name a.attributes d)
          (λ attrs. resolve_actions sc rest d >>= λ done.
            ok ((aid, record a { attributes = attrs }) ∷ done))
          h in
      let (done, r, e) =
        >>=-eq-ok (resolve_actions sc rest d)
          (λ done. ok ((aid, record a { attributes = attrs }) ∷ done)) q in
      ground (arith, resolve_actions-keys rest d done r)

  pub validate_actions-keys :
      (actions bs : Dict (ActionIr Model))
      → validate_actions sc actions ≡ ok bs
      → keys bs ≡ keys actions
  unfolding validate_actions
  validate_actions-keys [] bs h = ground arith
  validate_actions-keys ((aid, a) ∷ rest) bs h =
      elim (Result-cases (normalized sc sc.actions a.type_name a.attributes)) [
        | inr (e, p) ↦ ground arith
        | inl (attrs, p) ↦ elim (Result-cases (validate_actions sc rest)) [
          | inr (e, q) ↦ ground arith
          | inl (done, q) ↦ ground (arith, validate_actions-keys rest done)
        ]
      ]

  -- An instance that Pydantic accepted, and the attributes that it dumps.
  pub record Built (table : Table Class) (type_name : String) (attrs : Attributes Model)
      : Type 0 where
    pub cls : Class
    pub registered : get type_name table ≡ some cls
    pub given : Attributes Model
    pub instance_of : Model
    pub constructed : construct cls given ≡ ok instance_of
    pub dumped : attrs ≡ dump instance_of

  normalized-Built :
      (table : Table Class) (type_name : String) (attrs out : Attributes Model)
      → normalized sc table type_name attrs ≡ ok out
      → Built table type_name out
  unfolding normalized
  normalized-Built table type_name attrs out h = elim (Option-cases (get type_name table)) [
    | inl p ↦ ground arith
    | inr (cls, p) ↦ elim (Result-cases (construct cls attrs)) [
      | inr (e, q) ↦ ground arith
      | inl (m, q) ↦ record {
        cls = cls;
        registered = p;
        given = attrs;
        instance_of = m;
        constructed = q;
        dumped = ground arith;
      }
    ]
  ]

  abbrev pub AllActions : Dict (ActionIr Model) → Type 0
  AllActions d =
      All (λ (p : String × ActionIr Model). Built sc.actions p.1.type_name p.1.attributes) d

  pub validate_actions-Built :
      (d out : Dict (ActionIr Model)) → validate_actions sc d ≡ ok out → AllActions out
  unfolding validate_actions
  validate_actions-Built [] [] h = tt
  validate_actions-Built [] (x ∷ out) h = cc
  validate_actions-Built ((i, a) ∷ rest) out h =
      elim (Result-cases (normalized sc sc.actions a.type_name a.attributes)) [
        | inr (e, p) ↦ ground arith
        | inl (attrs, p) ↦ elim (Result-cases (validate_actions sc rest)) [
          | inr (e, q) ↦ ground arith
          | inl (done, q) ↦
              let eq : out ≡ (i, record a { attributes = attrs }) ∷ done = ground arith in
              rw eq (
                normalized-Built sc.actions a.type_name a.attributes attrs p,
                validate_actions-Built rest done q,
              )
        ]
      ]

  abbrev pub AllEvents : Dict (EventIr Model) → Type 0
  AllEvents d = All (λ (p : String × EventIr Model). Built sc.events p.1.type_name p.1.attributes) d

  pub validate_events-Built :
      (d out : Dict (EventIr Model)) → validate_events sc d ≡ ok out → AllEvents out
  unfolding validate_events
  validate_events-Built [] [] h = tt
  validate_events-Built [] (x ∷ out) h = cc
  validate_events-Built ((i, a) ∷ rest) out h =
      elim (Result-cases (normalized sc sc.events a.type_name a.attributes)) [
        | inr (e, p) ↦ ground arith
        | inl (attrs, p) ↦ elim (Result-cases (validate_events sc rest)) [
          | inr (e, q) ↦ ground arith
          | inl (done, q) ↦
              let eq : out ≡ (i, record a { attributes = attrs }) ∷ done = ground arith in
              rw eq (
                normalized-Built sc.events a.type_name a.attributes attrs p,
                validate_events-Built rest done q,
              )
        ]
      ]

  abbrev pub AllData : Dict (DatumIr Model) → Type 0
  AllData d =
      All (λ (p : String × DatumIr Model). Built sc.data_classes p.1.type_name p.1.attributes) d

  pub validate_data-Built :
      (d out : Dict (DatumIr Model)) → validate_data sc d ≡ ok out → AllData out
  unfolding validate_data
  validate_data-Built [] [] h = tt
  validate_data-Built [] (x ∷ out) h = cc
  validate_data-Built ((i, a) ∷ rest) out h =
      elim (Result-cases (normalized sc sc.data_classes a.type_name a.attributes)) [
        | inr (e, p) ↦ ground arith
        | inl (attrs, p) ↦ elim (Result-cases (validate_data sc rest)) [
          | inr (e, q) ↦ ground arith
          | inl (done, q) ↦
              let eq : out ≡ (i, record a { attributes = attrs }) ∷ done = ground arith in
              rw eq (
                normalized-Built sc.data_classes a.type_name a.attributes attrs p,
                validate_data-Built rest done q,
              )
        ]
      ]
