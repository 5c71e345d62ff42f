-- ===== src/Silverscript/Encode.antt =====
-- `compile_contract` and the two signature script builders of src/silverscript.rs. An expression is
-- converted by recursion on fuel, which is one more than its depth.
use kusd.Base.{
  ℕ, zero, suc, Bool, not, ◌==◌, List, [], ◌∷◌, Option, none, some, if◌then◌else◌, ok_or, Result,
  ok, err, map_err, ◌>>=◌, ◌>>◌, reject_if, length,
}
use kusd.Order.{Text, text_eq}
use kusd.Silverscript.{Bytes, CompiledContract, ExprKind, TypeKind, Compiler}

-- `CompilerError`: what the compiler reports, and the messages of this file.
pub data CompilerError : Type 0 where
  compiler : Bytes → CompilerError
  abi_verification codec : Bytes → CompilerError
  absent_contract : CompilerError
  absent_entry absent_covenant_decl : Text → CompilerError
  argument_count : ℕ → ℕ → CompilerError
  non_byte_expression type_mismatch : CompilerError
  absent_field : Text → Text → CompilerError
  -- The fuel of the model, which Finite shows to be enough.
  out_of_fuel : CompilerError

-- `.into_iter().map(f).collect::<Result<Vec<_>, _>>()`
unfoldable pub collect {ℓ κ} :
    {E : Type 0} {A : Type ℓ} {B : Type κ} → (A → Result E B) → List A → Result E (List B)
collect f [] = ok []
collect f (x ∷ xs) = do y ← f x; ys ← collect f xs; ok (y ∷ ys)

-- `.iter().find(|field| field.name == name)`
unfoldable pub find_field {ℓ} : {A : Type ℓ} → Text → List (Text × A) → Option A
find_field name [] = none
find_field name ((key, value) ∷ fields) =
    let rest = find_field name fields in if text_eq key name then some value else rest

-- `zip`
unfoldable pub zip {ℓ κ} : {A : Type ℓ} {B : Type κ} → List A → List B → List (A × B)
zip [] ys = []
zip (x ∷ xs) [] = []
zip (x ∷ xs) (y ∷ ys) = (x, y) ∷ zip xs ys

module _ (c : Compiler) where
  -- The struct of this file: a compiled contract with its ABI.
  pub record Contract : Type 0 where
    pub compiled : CompiledContract
    pub abi : c.Abi

  unfoldable pub compile_contract : Bytes → List c.Expr → Result CompilerError Contract
  compile_contract code args = do
    compiled ← map_err CompilerError.compiler (c.compile_source code args)
    abi ← map_err CompilerError.compiler (c.abi_artifact compiled args)
    map_err CompilerError.abi_verification (c.check_consistency abi)
    ok (record { compiled = compiled; abi = abi })

  -- The runtime state of the first contract whose state has the name.
  unfoldable pub state_field_type : List c.AbiContract → Text → Text → Option c.TypeArtifact
  state_field_type [] struct_name field_name = none
  state_field_type (contract ∷ rest) struct_name field_name =
      let later = state_field_type rest struct_name field_name in
      if text_eq (c.state_source contract) struct_name
      then find_field field_name (c.state_fields contract)
      else later

  unfoldable pub struct_field_type : c.Abi → Text → Text → Option c.TypeArtifact
  struct_field_type abi struct_name field_name = elim (c.structs abi struct_name) [
    | some fields ↦ find_field field_name fields
    | none ↦ state_field_type (c.contracts abi) struct_name field_name
  ]

  -- The closure over the elements of a byte string.
  unfoldable pub byte_of : ExprKind c.Expr → Result CompilerError ℕ
  byte_of (ExprKind.byte value) = ok value
  byte_of _ = err CompilerError.non_byte_expression

  unfoldable pub byte_string : List c.Expr → Result CompilerError c.Value
  byte_string values = do
    content ← collect (λ value. byte_of (c.kind value)) values
    ok (c.bytes_value content)

  abbrev pub Convert : Type 0
  Convert = c.Expr → c.TypeArtifact → Result CompilerError c.Value

  unfoldable pub array_of : Convert → List c.Expr → c.TypeArtifact → Result CompilerError c.Value
  array_of convert values item = do
    items ← collect (λ value. convert value item) values
    ok (c.array_value items)

  -- The closure over the fields of a struct.
  unfoldable pub field_of :
      c.Abi → Convert → Text → (Text × c.Expr) → Result CompilerError (Text × c.Value)
  field_of abi convert struct_name (name, expr) = do
    declared_type ←
        ok_or (struct_field_type abi struct_name name) (CompilerError.absent_field struct_name name)
    value ← convert expr declared_type
    ok (name, value)

  -- The match of `expr_value`, with the recursive call as an argument.
  unfoldable pub convert_kind :
      c.Abi → Convert → ExprKind c.Expr → TypeKind c.TypeArtifact → Result CompilerError c.Value
  convert_kind abi convert (ExprKind.int value) TypeKind.int = ok (c.int_value value)
  convert_kind abi convert (ExprKind.int value) TypeKind.temporal = ok (c.int_value value)
  convert_kind abi convert (ExprKind.temporal value) TypeKind.int = ok (c.int_value value)
  convert_kind abi convert (ExprKind.temporal value) TypeKind.temporal = ok (c.int_value value)
  convert_kind abi convert (ExprKind.date_literal value) TypeKind.int = ok (c.int_value value)
  convert_kind abi convert (ExprKind.date_literal value) TypeKind.temporal = ok (c.int_value value)
  convert_kind abi convert (ExprKind.bool value) TypeKind.bool = ok (c.bool_value value)
  convert_kind abi convert (ExprKind.byte value) TypeKind.byte = ok (c.byte_value value)
  convert_kind abi convert (ExprKind.string value) TypeKind.text = ok (c.text_value value)
  convert_kind abi convert (ExprKind.array values) TypeKind.bytes = byte_string values
  convert_kind abi convert (ExprKind.array values) TypeKind.fixed_bytes = byte_string values
  convert_kind abi convert (ExprKind.array values) TypeKind.pubkey = byte_string values
  convert_kind abi convert (ExprKind.array values) TypeKind.sig = byte_string values
  convert_kind abi convert (ExprKind.array values) TypeKind.datasig = byte_string values
  convert_kind abi convert (ExprKind.array values) (TypeKind.fixed_array item) =
      array_of convert values item
  convert_kind abi convert (ExprKind.array values) (TypeKind.dynamic_array item) =
      array_of convert values item
  convert_kind abi convert (ExprKind.struct_literal fields) (TypeKind.struct name) = do
    converted ← collect (field_of abi convert name) fields
    ok (c.object_value converted)
  convert_kind abi convert _ _ = err CompilerError.type_mismatch

  unfoldable pub expr_value : ℕ → c.Abi → Convert
  expr_value zero abi expr ty = err CompilerError.out_of_fuel
  expr_value (suc fuel) abi expr ty =
      convert_kind abi (expr_value fuel abi) (c.kind expr) (c.type_kind ty)

  unfoldable pub expr_values :
      List c.Expr → List c.TypeArtifact → c.Abi → Result CompilerError (List c.Value)
  expr_values args types abi = do
    reject_if (not (length args == length types))
        (CompilerError.argument_count (length types) (length args))
    collect (λ (expr, ty). expr_value (suc (c.depth expr)) abi expr ty) (zip args types)

  unfoldable pub build_sig_script : Contract → Text → List c.Expr → Result CompilerError Bytes
  build_sig_script self entry_name args = do
    contract ← ok_or (c.contract self.abi self.compiled.contract_name) CompilerError.absent_contract
    params ← ok_or (c.entry contract entry_name) (CompilerError.absent_entry entry_name)
    values ← expr_values args params self.abi
    map_err CompilerError.codec
        (c.encode_entry self.abi self.compiled.contract_name entry_name values)

  unfoldable pub build_sig_script_for_covenant_decl :
      Contract → Text → List c.Expr → Bool → Result CompilerError Bytes
  build_sig_script_for_covenant_decl self declaration_name args is_leader = do
    contract ← ok_or (c.contract self.abi self.compiled.contract_name) CompilerError.absent_contract
    params ←
        ok_or (c.covenant_decl_entry contract declaration_name is_leader)
          (CompilerError.absent_covenant_decl declaration_name)
    values ← expr_values args params self.abi
    map_err CompilerError.codec (
        c.encode_covenant_decl self.abi self.compiled.contract_name declaration_name is_leader
          values)
