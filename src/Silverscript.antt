-- ===== src/Silverscript.antt =====
-- src/silverscript.rs: the boundary to the SilverScript compiler and its ABI, which are packages of
-- their own and parameters here. What the source matches on or reads from their values is a view.
pub mod Encode
pub mod Finite
pub mod Typed
pub mod Accepted
pub mod Sample
mod Tests
use kusd.Base.{ℕ, Bool, List, Option, Result}
use kusd.Int.{ℤ}
use kusd.Order.{Text}

-- `Vec<u8>`
abbrev pub Bytes : Type 0
Bytes = List ℕ

-- What the compiler returns: the code, where its state stands in it, and the hash of the rest.
pub record CompiledContract : Type 0 where
  pub contract_name : Text
  pub bytecode : Bytes
  pub state_start : ℕ
  pub state_len : ℕ
  pub template_hash : Bytes

-- The `ExprKind`s that the source names, over expressions `E`; `other` is any of the rest.
pub data ExprKind (E : Type 0) : Type 0 where
  int temporal date_literal : ℤ → ExprKind E
  bool : Bool → ExprKind E
  byte : ℕ → ExprKind E
  string : Text → ExprKind E
  array : List E → ExprKind E
  struct_literal : List (Text × E) → ExprKind E
  other : ExprKind E

-- The same for `TypeArtifact`, over types `T`.
pub data TypeKind (T : Type 0) : Type 0 where
  int temporal bool byte text bytes fixed_bytes pubkey sig datasig : TypeKind T
  fixed_array dynamic_array : T → TypeKind T
  struct : Text → TypeKind T
  other : TypeKind T

-- The file system, the SilverScript compiler, its ABI and the script builder, with their messages.
pub record Compiler : Type 1 where
  pub Expr : Type 0
  pub bytes : Bytes → Expr
  pub int : ℤ → Expr
  pub byte : ℕ → Expr
  pub bool : Bool → Expr
  pub dynamic_bytes : Bytes → Expr
  pub TypeRef : Type 0
  pub parse_type_ref : Text → Result Bytes TypeRef
  pub array : TypeRef → List Expr → Expr
  pub struct_object : Text → List (Text × Expr) → Expr
  pub kind : Expr → ExprKind Expr
  -- How deeply expressions are nested in one; the source has no such function.
  pub depth : Expr → ℕ
  pub read_to_string : Bytes → Result Bytes Bytes
  pub compile_source : Bytes → List Expr → Result Bytes CompiledContract
  pub Abi : Type 0
  pub abi_artifact : CompiledContract → List Expr → Result Bytes Abi
  pub check_consistency : Abi → Result Bytes (Unit {0})
  -- The fields of the ABI that the source reads.
  pub TypeArtifact : Type 0
  pub type_kind : TypeArtifact → TypeKind TypeArtifact
  pub structs : Abi → Text → Option (List (Text × TypeArtifact))
  pub AbiContract : Type 0
  pub contracts : Abi → List AbiContract
  pub contract : Abi → Text → Option AbiContract
  pub state_source : AbiContract → Text
  pub state_fields : AbiContract → List (Text × TypeArtifact)
  -- The types of the parameters of an entry, and of a covenant declaration.
  pub entry : AbiContract → Text → Option (List TypeArtifact)
  pub covenant_decl_entry : AbiContract → Text → Bool → Option (List TypeArtifact)
  -- `ArtifactValue`
  pub Value : Type 0
  pub int_value : ℤ → Value
  pub bool_value : Bool → Value
  pub byte_value : ℕ → Value
  pub text_value : Text → Value
  pub bytes_value : Bytes → Value
  pub array_value : List Value → Value
  -- Of the fields in their order: a map keeps the last of equal names.
  pub object_value : List (Text × Value) → Value
  pub encode_entry : Abi → Text → Text → List Value → Result Bytes Bytes
  pub encode_covenant_decl : Abi → Text → Text → Bool → List Value → Result Bytes Bytes
  -- `ScriptBuilder::add_data`
  pub add_data : Bytes → Result Bytes Bytes
