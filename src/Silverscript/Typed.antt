-- ===== src/Silverscript/Typed.antt =====
-- Which call arguments src/silverscript.rs accepts: those that have the type that the ABI declares.
use kusd.Base.{
  ℕ, ◌≡◌, refl, sym, subst, Bool, true, false, ◌&&◌, List, [], ◌∷◌, Option, none, some, Result,
  ok_or, ok, bind-ok, arith,
}
use kusd.Order.{Text}
use kusd.Silverscript.{ExprKind, TypeKind, Compiler}
use kusd.Silverscript.Encode.{
  CompilerError, collect, struct_field_type, byte_of, byte_string, array_of, field_of, convert_kind,
}
use kusd.Silverscript.Finite.{All}

abbrev pub is_number : {E : Type 0} → ExprKind E → Bool
is_number (ExprKind.int value) = true
is_number (ExprKind.temporal value) = true
is_number (ExprKind.date_literal value) = true
is_number _ = false

abbrev pub is_number_type : {T : Type 0} → TypeKind T → Bool
is_number_type TypeKind.int = true
is_number_type TypeKind.temporal = true
is_number_type _ = false

-- The scalar expressions of a scalar type.
abbrev pub is_scalar : {E T : Type 0} → ExprKind E → TypeKind T → Bool
is_scalar (ExprKind.bool value) TypeKind.bool = true
is_scalar (ExprKind.byte value) TypeKind.byte = true
is_scalar (ExprKind.string value) TypeKind.text = true
is_scalar kind ty = is_number kind && is_number_type ty

abbrev pub is_byte_type : {T : Type 0} → TypeKind T → Bool
is_byte_type TypeKind.bytes = true
is_byte_type TypeKind.fixed_bytes = true
is_byte_type TypeKind.pubkey = true
is_byte_type TypeKind.sig = true
is_byte_type TypeKind.datasig = true
is_byte_type _ = false

abbrev pub item_type : {T : Type 0} → TypeKind T → Option T
item_type (TypeKind.fixed_array item) = some item
item_type (TypeKind.dynamic_array item) = some item
item_type _ = none

abbrev pub is_byte : {E : Type 0} → ExprKind E → Bool
is_byte (ExprKind.byte value) = true
is_byte _ = false

found_type :
    {T : Type 0} (o : Option T) (ty : T) (e : CompilerError) → ok_or o e ≡ ok ty → o ≡ some ty
found_type (some x) ty e h = ground (arith, h)
found_type none ty e h = absurd (ground (arith, h))

module _ (c : Compiler) where
  -- What has a type: an expression, the elements of an array, the fields of a struct.
  pub data Subject : Type 0 where
    single : c.Expr → c.TypeArtifact → Subject
    elements : List c.Expr → c.TypeArtifact → Subject
    members : Text → List (Text × c.Expr) → Subject

  pub data WellTyped (abi : c.Abi) : Subject → Type 0 where
    scalar :
        (e : c.Expr) (t : c.TypeArtifact)
        → is_scalar (c.kind e) (c.type_kind t) ≡ true
        → WellTyped abi (single e t)
    byte_array :
        (e : c.Expr) (t : c.TypeArtifact) (values : List c.Expr)
        → c.kind e ≡ ExprKind.array values
        → is_byte_type (c.type_kind t) ≡ true
        → All (λ v. is_byte (c.kind v) ≡ true) values
        → WellTyped abi (single e t)
    item_array :
        (e : c.Expr) (t item : c.TypeArtifact) (values : List c.Expr)
        → c.kind e ≡ ExprKind.array values
        → item_type (c.type_kind t) ≡ some item
        → WellTyped abi (elements values item)
        → WellTyped abi (single e t)
    record_of :
        (e : c.Expr) (t : c.TypeArtifact) (name : Text) (fields : List (Text × c.Expr))
        → c.kind e ≡ ExprKind.struct_literal fields
        → c.type_kind t ≡ TypeKind.struct name
        → WellTyped abi (members name fields)
        → WellTyped abi (single e t)
    no_element : (item : c.TypeArtifact) → WellTyped abi (elements [] item)
    element :
        (item : c.TypeArtifact) (e : c.Expr) (rest : List c.Expr)
        → WellTyped abi (single e item)
        → WellTyped abi (elements rest item)
        → WellTyped abi (elements (e ∷ rest) item)
    no_member : (name : Text) → WellTyped abi (members name [])
    member :
        (name key : Text) (e : c.Expr) (ty : c.TypeArtifact) (rest : List (Text × c.Expr))
        → struct_field_type c abi name key ≡ some ty
        → WellTyped abi (single e ty)
        → WellTyped abi (members name rest)
        → WellTyped abi (members name ((key, e) ∷ rest))

  abbrev Sound : c.Abi → (c.Expr → c.TypeArtifact → Result CompilerError c.Value) → Type 0
  Sound abi f =
      (e : c.Expr) (t : c.TypeArtifact) (v : c.Value) → f e t ≡ ok v → WellTyped abi (single e t)

  byte_of_sound : (kind : ExprKind c.Expr) (n : ℕ) → byte_of c kind ≡ ok n → is_byte kind ≡ true
  unfolding byte_of
  byte_of_sound kind n h = ground (arith, h)

  bytes_sound :
      (values : List c.Expr) (ns : List ℕ)
      → collect (λ v. byte_of c (c.kind v)) values ≡ ok ns
      → All (λ v. is_byte (c.kind v) ≡ true) values
  unfolding collect All
  bytes_sound [] ns h = tt
  bytes_sound (e ∷ rest) ns h = bind-ok (byte_of c (c.kind e)) h λ n p h1.
      bind-ok (collect (λ v. byte_of c (c.kind v)) rest) h1
        λ ms q _. (byte_of_sound (c.kind e) n p, bytes_sound rest ms q)

  module _ (abi : c.Abi) (f : c.Expr → c.TypeArtifact → Result CompilerError c.Value)
      (sound : Sound abi f) where
    elements_sound :
        (item : c.TypeArtifact) (values : List c.Expr) (vs : List c.Value)
        → collect (λ v. f v item) values ≡ ok vs
        → WellTyped abi (elements values item)
    unfolding collect
    elements_sound item [] vs h = no_element item
    elements_sound item (e ∷ rest) vs h = bind-ok (f e item) h λ v p h1.
        bind-ok (collect (λ v. f v item) rest) h1
          λ ws q _. element item e rest (sound e item v p) (elements_sound item rest ws q)

    members_sound :
        (name : Text) (fields : List (Text × c.Expr)) (vs : List (Text × c.Value))
        → collect (field_of c abi f name) fields ≡ ok vs
        → WellTyped abi (members name fields)
    unfolding collect field_of
    members_sound name [] vs h = no_member name
    members_sound name ((key, e) ∷ rest) vs h = bind-ok (field_of c abi f name (key, e)) h λ v p h1.
        bind-ok (collect (field_of c abi f name) rest) h1 λ ws q _.
          bind-ok (ok_or (struct_field_type c abi name key) (CompilerError.absent_field name key)) p
            λ ty found p1. bind-ok (f e ty) p1 λ w made _.
              member name key e ty rest (found_type (struct_field_type c abi name key) ty _ found)
                (sound e ty w made) (members_sound name rest ws q)

    bytes_case :
        (e : c.Expr) (t : c.TypeArtifact) (values : List c.Expr) (v : c.Value)
        → c.kind e ≡ ExprKind.array values
        → is_byte_type (c.type_kind t) ≡ true
        → byte_string c values ≡ ok v
        → WellTyped abi (single e t)
    unfolding byte_string
    bytes_case e t values v p q h =
        bind-ok (collect (λ v. byte_of c (c.kind v)) values) h
          λ ns made _. byte_array e t values p q (bytes_sound values ns made)

    items_case :
        (e : c.Expr) (t item : c.TypeArtifact) (values : List c.Expr) (v : c.Value)
        → c.kind e ≡ ExprKind.array values
        → item_type (c.type_kind t) ≡ some item
        → array_of c f values item ≡ ok v
        → WellTyped abi (single e t)
    unfolding array_of
    items_case e t item values v p q h =
        bind-ok (collect (λ v. f v item) values) h
          λ vs made _. item_array e t item values p q (elements_sound item values vs made)

    scalar_case :
        (e : c.Expr) (t : c.TypeArtifact) (kind : ExprKind c.Expr) (ty : TypeKind c.TypeArtifact)
        → c.kind e ≡ kind
        → c.type_kind t ≡ ty
        → is_scalar kind ty ≡ true
        → WellTyped abi (single e t)
    scalar_case e t kind ty p q h = scalar e t (
        subst (λ x. is_scalar x (c.type_kind t) ≡ true) (sym p)
          (subst (λ y. is_scalar kind y ≡ true) (sym q) h))

    pub kind_sound :
        (e : c.Expr) (t : c.TypeArtifact) (v : c.Value) (kind : ExprKind c.Expr)
        (ty : TypeKind c.TypeArtifact)
        → c.kind e ≡ kind
        → c.type_kind t ≡ ty
        → convert_kind c abi f kind ty ≡ ok v
        → WellTyped abi (single e t)
    unfolding convert_kind
    kind_sound e t v (ExprKind.array values) TypeKind.bytes p q h =
        bytes_case e t values v p (rw q refl) h
    kind_sound e t v (ExprKind.array values) TypeKind.fixed_bytes p q h =
        bytes_case e t values v p (rw q refl) h
    kind_sound e t v (ExprKind.array values) TypeKind.pubkey p q h =
        bytes_case e t values v p (rw q refl) h
    kind_sound e t v (ExprKind.array values) TypeKind.sig p q h =
        bytes_case e t values v p (rw q refl) h
    kind_sound e t v (ExprKind.array values) TypeKind.datasig p q h =
        bytes_case e t values v p (rw q refl) h
    kind_sound e t v (ExprKind.array values) (TypeKind.fixed_array item) p q h =
        items_case e t item values v p (rw q refl) h
    kind_sound e t v (ExprKind.array values) (TypeKind.dynamic_array item) p q h =
        items_case e t item values v p (rw q refl) h
    kind_sound e t v (ExprKind.struct_literal fields) (TypeKind.struct name) p q h =
        bind-ok (collect (field_of c abi f name) fields) h
          λ vs made _. record_of e t name fields p q (members_sound name fields vs made)
    kind_sound e t v kind ty p q h = scalar_case e t kind ty p q (ground (arith, h))
