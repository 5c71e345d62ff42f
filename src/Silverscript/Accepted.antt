-- ===== src/Silverscript/Accepted.antt =====
-- The conversion of the call arguments in src/silverscript.rs accepts exactly the expressions that have
-- the declared type.
use kusd.Base.{ℕ, zero, suc, ◌<◌, ◌≡◌, ◌↔◌, refl, true, List, [], ◌∷◌, some, Result, ok, arith}
use kusd.Order.{Text}
use kusd.Silverscript.{ExprKind, TypeKind, Compiler}
use kusd.Silverscript.Encode.{
  CompilerError, collect, byte_of, byte_string, array_of, field_of, convert_kind, expr_value,
}
use kusd.Silverscript.Finite.{All, All-map, IsFinite}
use kusd.Silverscript.Typed.{
  is_scalar, is_byte_type, item_type, is_byte, Subject, WellTyped, kind_sound,
}

less_trans : (a b n : ℕ) → a < b → b < suc n → a < n
less_trans a b n h k = omega arith

module _ (c : Compiler) (abi : c.Abi) where
  byte_accepted : (kind : ExprKind c.Expr) → is_byte kind ≡ true → (n : ℕ) × (byte_of c kind ≡ ok n)
  unfolding byte_of
  byte_accepted (ExprKind.byte n) g = (n, refl)
  byte_accepted kind g = absurd (ground (arith, g))

  bytes_accepted :
      (values : List c.Expr)
      → All (λ v. is_byte (c.kind v) ≡ true) values
      → (ns : List ℕ) × (collect (λ v. byte_of c (c.kind v)) values ≡ ok ns)
  unfolding collect All
  bytes_accepted [] h = ([], refl)
  bytes_accepted (e ∷ rest) h =
      let (n, p) = byte_accepted (c.kind e) h.0 in
      let (ns, q) = bytes_accepted rest h.1 in (n ∷ ns, rw (p, q) refl)

  module _ (f : c.Expr → c.TypeArtifact → Result CompilerError c.Value) (bound : ℕ)
      (complete : (e : c.Expr) (t : c.TypeArtifact)
        → c.depth e < bound
        → WellTyped c abi (Subject.single e t)
        → (v : c.Value) × (f e t ≡ ok v)) where
    elements_accepted :
        (item : c.TypeArtifact) (values : List c.Expr)
        → All (λ v. c.depth v < bound) values
        → WellTyped c abi (Subject.elements values item)
        → (vs : List c.Value) × (collect (λ v. f v item) values ≡ ok vs)
    unfolding collect All
    elements_accepted item [] h typed = ([], refl)
    elements_accepted item (e ∷ rest) h (WellTyped.element _ _ _ one more) =
        let (v, p) = complete e item h.0 one in
        let (vs, q) = elements_accepted item rest h.1 more in (v ∷ vs, rw (p, q) refl)

    members_accepted :
        (name : Text) (fields : List (Text × c.Expr))
        → All (λ field. c.depth field.1 < bound) fields
        → WellTyped c abi (Subject.members name fields)
        → (vs : List (Text × c.Value)) × (collect (field_of c abi f name) fields ≡ ok vs)
    unfolding collect All field_of
    members_accepted name [] h typed = ([], refl)
    members_accepted name ((key, e) ∷ rest) h (WellTyped.member _ _ _ ty _ found one more) =
        let (v, p) = complete e ty h.0 one in
        let (vs, q) = members_accepted name rest h.1 more in ((key, v) ∷ vs, rw (found, p, q) refl)

    scalar_accepted :
        (kind : ExprKind c.Expr) (ty : TypeKind c.TypeArtifact)
        → is_scalar kind ty ≡ true
        → (v : c.Value) × (convert_kind c abi f kind ty ≡ ok v)
    unfolding convert_kind
    scalar_accepted (ExprKind.int x) TypeKind.int h = (c.int_value x, refl)
    scalar_accepted (ExprKind.int x) TypeKind.temporal h = (c.int_value x, refl)
    scalar_accepted (ExprKind.temporal x) TypeKind.int h = (c.int_value x, refl)
    scalar_accepted (ExprKind.temporal x) TypeKind.temporal h = (c.int_value x, refl)
    scalar_accepted (ExprKind.date_literal x) TypeKind.int h = (c.int_value x, refl)
    scalar_accepted (ExprKind.date_literal x) TypeKind.temporal h = (c.int_value x, refl)
    scalar_accepted (ExprKind.bool x) TypeKind.bool h = (c.bool_value x, refl)
    scalar_accepted (ExprKind.byte x) TypeKind.byte h = (c.byte_value x, refl)
    scalar_accepted (ExprKind.string x) TypeKind.text h = (c.text_value x, refl)
    scalar_accepted kind ty h = absurd (ground (arith, h))

    byte_kind :
        (values : List c.Expr) (ty : TypeKind c.TypeArtifact)
        → is_byte_type ty ≡ true
        → convert_kind c abi f (ExprKind.array values) ty ≡ byte_string c values
    unfolding convert_kind
    byte_kind values ty h = ground (arith, h)

    item_kind :
        (values : List c.Expr) (ty : TypeKind c.TypeArtifact) (item : c.TypeArtifact)
        → item_type ty ≡ some item
        → convert_kind c abi f (ExprKind.array values) ty ≡ array_of c f values item
    unfolding convert_kind
    item_kind values ty item h = ground (arith, h)

    kind_accepted :
        (e : c.Expr) (t : c.TypeArtifact)
        → ((values : List c.Expr)
            → c.kind e ≡ ExprKind.array values
            → All (λ v. c.depth v < bound) values)
        → ((fields : List (Text × c.Expr))
            → c.kind e ≡ ExprKind.struct_literal fields
            → All (λ field. c.depth field.1 < bound) fields)
        → WellTyped c abi (Subject.single e t)
        → (v : c.Value) × (convert_kind c abi f (c.kind e) (c.type_kind t) ≡ ok v)
    unfolding convert_kind byte_string array_of
    kind_accepted e t inner members (WellTyped.scalar _ _ h) =
        scalar_accepted (c.kind e) (c.type_kind t) h
    kind_accepted e t inner members (WellTyped.byte_array _ _ values p q h) =
        let (ns, made) = bytes_accepted values h in
        (c.bytes_value ns, rw (p, byte_kind values (c.type_kind t) q) (rw made refl))
    kind_accepted e t inner members (WellTyped.item_array _ _ item values p q h) =
        let (vs, made) = elements_accepted item values (inner values p) h in
        (c.array_value vs, rw (p, item_kind values (c.type_kind t) item q) (rw made refl))
    kind_accepted e t inner members (WellTyped.record_of _ _ name fields p q h) =
        let (vs, made) = members_accepted name fields (members fields p) h in
        (c.object_value vs, rw (p, q) (rw made refl))

  accepted :
      (n : ℕ) (e : c.Expr) (t : c.TypeArtifact)
      → IsFinite c
      → c.depth e < n
      → WellTyped c abi (Subject.single e t)
      → (v : c.Value) × (expr_value c n abi e t ≡ ok v)
  unfolding expr_value
  accepted zero e t finite h typed = absurd (omega arith)
  accepted (suc n) e t finite h typed =
      kind_accepted (expr_value c n abi) n (λ e' t' less. accepted n e' t' finite less) e t
        (λ values p.
          All-map (λ v less. less_trans (c.depth v) (c.depth e) n less h) values
            (finite.elements e values p))
        (λ fields p.
          All-map (λ field less. less_trans (c.depth field.1) (c.depth e) n less h) fields
            (finite.fields e fields p))
        typed

  converted :
      (n : ℕ) (e : c.Expr) (t : c.TypeArtifact) (v : c.Value)
      → expr_value c n abi e t ≡ ok v
      → WellTyped c abi (Subject.single e t)
  unfolding expr_value
  converted zero e t v h = absurd (ground (arith, h))
  converted (suc n) e t v h =
      kind_sound c abi (expr_value c n abi) (converted n) e t v (c.kind e) (c.type_kind t) refl refl
        h

  -- An argument is converted exactly where it has the declared type. Where expressions are finite, the
  -- conversion of one, with its fuel, succeeds if and only if the expression is well-typed against the
  -- ABI: a scalar of the type, bytes for a byte string, an array whose elements all have the type of
  -- the items, or a struct whose fields are all declared and have the types that are declared.
  pub converted_iff_typed :
      (e : c.Expr) (t : c.TypeArtifact)
      → IsFinite c
      → ((v : c.Value) × (expr_value c (suc (c.depth e)) abi e t ≡ ok v))
        ↔ WellTyped c abi (Subject.single e t)
  converted_iff_typed e t finite = (
    λ (v, h). converted (suc (c.depth e)) e t v h,
    accepted (suc (c.depth e)) e t finite (omega arith),
  )
