-- ===== src/Silverscript/Finite.antt =====
-- The conversion of the call arguments in src/silverscript.rs ends: its fuel is enough on expressions
-- that are finite, and does not matter beyond that.
use kusd.Base.{
  ℕ, zero, suc, ◌<◌, ◌≡◌, ◌≢◌, refl, List, [], ◌∷◌, Option-cases, Result, Result-cases, err, inl,
  inr, arith,
}
use kusd.Order.{Text}
use kusd.Silverscript.{ExprKind, TypeKind, Compiler}
use kusd.Silverscript.Encode.{
  CompilerError, collect, struct_field_type, byte_of, byte_string, array_of, field_of, convert_kind,
  expr_value,
}

unfoldable pub All {ℓ} : {A : Type ℓ} → (A → Type 0) → List A → Type 0
All P [] = Unit
All P (x ∷ xs) = P x × All P xs

pub All-map {ℓ} :
    {A : Type ℓ} {P R : A → Type 0} (f : (x : A) → P x → R x) (xs : List A) → All P xs → All R xs
unfolding All
All-map f [] h = tt
All-map f (x ∷ xs) (p, h) = (f x p, All-map f xs h)

collect_cong {ℓ} :
    {E : Type 0} {A : Type ℓ} {B : Type 0} (f g : A → Result E B) (xs : List A)
    → All (λ x. f x ≡ g x) xs
    → collect f xs ≡ collect g xs
unfolding collect All
collect_cong f g [] h = refl
collect_cong f g (x ∷ xs) (e, h) = rw (e, collect_cong f g xs h) refl

-- The expressions inside one are less deep, so that there is no endless nesting.
pub record IsFinite (c : Compiler) : Type 0 where
  pub elements :
      (e : c.Expr) (values : List c.Expr)
      → c.kind e ≡ ExprKind.array values
      → All (λ v. c.depth v < c.depth e) values
  pub fields :
      (e : c.Expr) (fields : List (Text × c.Expr))
      → c.kind e ≡ ExprKind.struct_literal fields
      → All (λ field. c.depth field.1 < c.depth e) fields

-- An error of the whole is one of an element.
collect_never {ℓ} :
    {E : Type 0} {A : Type ℓ} {B : Type 0} (f : A → Result E B) (e : E) (xs : List A)
    → All (λ x. f x ≢ err e) xs
    → collect f xs ≢ err e
unfolding collect All
collect_never f e [] h k = ground (arith, k)
collect_never f e (x ∷ xs) h k = elim (Result-cases (f x)) [
  | inr (d, p) ↦ h.0 (ground arith)
  | inl (y, p) ↦ elim (Result-cases (collect f xs)) [
    | inl (ys, q) ↦ ground arith
    | inr (d, q) ↦ collect_never f e xs h.1 (ground arith)
  ]
]

module _ (c : Compiler) (finite : IsFinite c) (abi : c.Abi) where
  field_of_cong :
      (f g : c.Expr → c.TypeArtifact → Result CompilerError c.Value) (name : Text)
      (field : Text × c.Expr)
      → ((ty : c.TypeArtifact) → f field.1 ty ≡ g field.1 ty)
      → field_of c abi f name field ≡ field_of c abi g name field
  unfolding field_of
  field_of_cong f g name (key, expr) h = elim (Option-cases (struct_field_type c abi name key)) [
    | inl none ↦ rw none refl
    | inr (ty, found) ↦ rw (found, h ty) refl
  ]

  field_of_never :
      (f : c.Expr → c.TypeArtifact → Result CompilerError c.Value) (name : Text)
      (field : Text × c.Expr)
      → ((ty : c.TypeArtifact) → f field.1 ty ≢ err CompilerError.out_of_fuel)
      → field_of c abi f name field ≢ err CompilerError.out_of_fuel
  unfolding field_of
  field_of_never f name (key, expr) h k = elim (Option-cases (struct_field_type c abi name key)) [
    | inl none ↦ ground arith
    | inr (ty, found) ↦ elim (Result-cases (f expr ty)) [
      | inl (value, p) ↦ ground arith
      | inr (d, p) ↦ h ty (ground arith)
    ]
  ]

  abbrev SameOn : (f g : c.Expr → c.TypeArtifact → Result CompilerError c.Value) → c.Expr → Type 0
  SameOn f g expr = (ty : c.TypeArtifact) → f expr ty ≡ g expr ty

  abbrev NeverOn : (f : c.Expr → c.TypeArtifact → Result CompilerError c.Value) → c.Expr → Type 0
  NeverOn f expr = (ty : c.TypeArtifact) → f expr ty ≢ err CompilerError.out_of_fuel

  -- The match calls the conversion on the elements and the fields only.
  convert_kind_cong :
      (f g : c.Expr → c.TypeArtifact → Result CompilerError c.Value) (kind : ExprKind c.Expr)
      (ty : TypeKind c.TypeArtifact)
      → ((values : List c.Expr) → kind ≡ ExprKind.array values → All (SameOn f g) values)
      → ((fields : List (Text × c.Expr))
          → kind ≡ ExprKind.struct_literal fields
          → All (λ field. SameOn f g field.1) fields)
      → convert_kind c abi f kind ty ≡ convert_kind c abi g kind ty
  unfolding convert_kind array_of
  convert_kind_cong f g (ExprKind.array values) (TypeKind.fixed_array item) h k =
      rw
        (collect_cong (λ v. f v item) (λ v. g v item) values
          (All-map (λ v same. same item) values (h values refl)))
        refl
  convert_kind_cong f g (ExprKind.array values) (TypeKind.dynamic_array item) h k =
      rw
        (collect_cong (λ v. f v item) (λ v. g v item) values
          (All-map (λ v same. same item) values (h values refl)))
        refl
  convert_kind_cong f g (ExprKind.struct_literal fields) (TypeKind.struct name) h k =
      rw
        (collect_cong (field_of c abi f name) (field_of c abi g name) fields
          (All-map (field_of_cong f g name) fields (k fields refl)))
        refl
  convert_kind_cong f g kind ty h k = ground arith

  byte_of_never : (kind : ExprKind c.Expr) → byte_of c kind ≢ err CompilerError.out_of_fuel
  unfolding byte_of
  byte_of_never kind h = ground arith

  everywhere {ℓ} : {A : Type ℓ} {P : A → Type 0} (f : (x : A) → P x) (xs : List A) → All P xs
  unfolding All
  everywhere f [] = tt
  everywhere f (x ∷ xs) = (f x, everywhere f xs)

  byte_string_never : (values : List c.Expr) → byte_string c values ≢ err CompilerError.out_of_fuel
  unfolding byte_string
  byte_string_never values =
      let never =
        collect_never (λ v. byte_of c (c.kind v)) CompilerError.out_of_fuel values
          (everywhere (λ v. byte_of_never (c.kind v)) values) in
      ground (arith, never)

  array_of_never :
      (f : c.Expr → c.TypeArtifact → Result CompilerError c.Value) (values : List c.Expr)
      (item : c.TypeArtifact)
      → All (NeverOn f) values
      → array_of c f values item ≢ err CompilerError.out_of_fuel
  unfolding array_of
  array_of_never f values item h =
      let never =
        collect_never (λ v. f v item) CompilerError.out_of_fuel values
          (All-map (λ v never. never item) values h) in
      ground (arith, never)

  convert_kind_never :
      (f : c.Expr → c.TypeArtifact → Result CompilerError c.Value) (kind : ExprKind c.Expr)
      (ty : TypeKind c.TypeArtifact)
      → ((values : List c.Expr) → kind ≡ ExprKind.array values → All (NeverOn f) values)
      → ((fields : List (Text × c.Expr))
          → kind ≡ ExprKind.struct_literal fields
          → All (λ field. NeverOn f field.1) fields)
      → convert_kind c abi f kind ty ≢ err CompilerError.out_of_fuel
  unfolding convert_kind
  convert_kind_never f (ExprKind.array values) (TypeKind.fixed_array item) h k =
      array_of_never f values item (h values refl)
  convert_kind_never f (ExprKind.array values) (TypeKind.dynamic_array item) h k =
      array_of_never f values item (h values refl)
  convert_kind_never f (ExprKind.struct_literal fields) (TypeKind.struct name) h k =
      let never =
        collect_never (field_of c abi f name) CompilerError.out_of_fuel fields
          (All-map (field_of_never f name) fields (k fields refl)) in
      ground (arith, never)
  convert_kind_never f (ExprKind.array values) ty h k = ground (arith, byte_string_never values)
  convert_kind_never f kind ty h k = ground arith

  expr_value_stable :
      (n m : ℕ) (expr : c.Expr) (ty : c.TypeArtifact)
      → c.depth expr < n
      → c.depth expr < m
      → expr_value c n abi expr ty ≡ expr_value c m abi expr ty
  unfolding expr_value
  expr_value_stable (suc n) (suc m) expr ty h k =
      convert_kind_cong (expr_value c n abi) (expr_value c m abi) (c.kind expr) (c.type_kind ty)
        (λ values e.
          All-map (λ v less t. expr_value_stable n m v t (omega arith) (omega arith)) values
            (finite.elements expr values e))
        (λ fields e.
          All-map (λ v less t. expr_value_stable n m v.1 t (omega arith) (omega arith)) fields
            (finite.fields expr fields e))
  expr_value_stable zero m expr ty h k = absurd (omega arith)
  expr_value_stable n zero expr ty h k = absurd (omega arith)

  expr_value_never :
      (n : ℕ) (expr : c.Expr) (ty : c.TypeArtifact)
      → c.depth expr < n
      → expr_value c n abi expr ty ≢ err CompilerError.out_of_fuel
  unfolding expr_value
  expr_value_never (suc n) expr ty h =
      convert_kind_never (expr_value c n abi) (c.kind expr) (c.type_kind ty)
        (λ values e.
          All-map (λ v less t. expr_value_never n v t (omega arith)) values
            (finite.elements expr values e))
        (λ fields e.
          All-map (λ v less t. expr_value_never n v.1 t (omega arith)) fields
            (finite.fields expr fields e))
  expr_value_never zero expr ty h = absurd (omega arith)

  -- The conversion ends. On an expression whose nesting is finite, any fuel above its depth gives the
  -- same result, and it is not that the fuel has run out.
  pub expr_value_ends :
      (n : ℕ) (expr : c.Expr) (ty : c.TypeArtifact)
      → c.depth expr < n
      → (expr_value c n abi expr ty ≡ expr_value c (suc (c.depth expr)) abi expr ty)
        × (expr_value c n abi expr ty ≢ err CompilerError.out_of_fuel)
  expr_value_ends n expr ty h = (
    expr_value_stable n (suc (c.depth expr)) expr ty h (omega arith),
    expr_value_never n expr ty h,
  )
