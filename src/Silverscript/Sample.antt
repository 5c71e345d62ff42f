-- ===== src/Silverscript/Sample.antt =====
-- A concrete compiler for the runs: an expression is a term, the source of a contract is its path, the
-- state is the second byte of the code, and the hash is the source. An encoded call is its name with
-- the atoms of its arguments.
use kusd.Base.{ℕ, zero, suc, Bool, true, if◌then◌else◌, List, [], ◌∷◌, ◌++◌, map, some, none, ok}
use kusd.Int.{ℤ, pos, negsuc}
use kusd.Order.{Text, text, text_eq}
use kusd.Silverscript.{Bytes, ExprKind, TypeKind, Compiler}

pub data Term : Type 0 where
  atoms : Bytes → Term
  listed : List Bytes → Term

pub data Ty : Type 0 where
  text_type list_type : Ty

unfoldable pub join : List Bytes → Bytes
join [] = []
join (x ∷ xs) = x ++ join xs

unfoldable pub content : Term → Bytes
content (Term.atoms x) = x
content (Term.listed xs) = join xs

unfoldable pub contents : List Term → List Bytes
contents [] = []
contents (t ∷ ts) = content t ∷ contents ts

unfoldable pub field_contents : List (Text × Term) → List Bytes
field_contents [] = []
field_contents ((name, t) ∷ ts) = content t ∷ field_contents ts

abbrev pub of_int : ℤ → Bytes
of_int (pos n) = n ∷ []
of_int (negsuc n) = 0 ∷ n ∷ []

abbrev pub of_bool : Bool → Bytes
of_bool true = 1 ∷ []
of_bool _ = 0 ∷ []

abbrev pub kind_of : Term → ExprKind Term
kind_of (Term.atoms x) = ExprKind.string x
kind_of (Term.listed xs) = ExprKind.array (map Term.atoms xs)

abbrev pub depth_of : Term → ℕ
depth_of (Term.atoms x) = 0
depth_of (Term.listed xs) = 1

abbrev pub kind_of_type : Ty → TypeKind Ty
kind_of_type Ty.text_type = TypeKind.text
kind_of_type Ty.list_type = TypeKind.dynamic_array Ty.text_type

unfoldable pub texts : ℕ → List Ty
texts zero = []
texts (suc n) = Ty.text_type ∷ texts n

-- The parameters of the policies in the runs.
abbrev pub params_of : Text → List Ty
params_of name =
    if text_eq name (text "repayPolicy")
    then texts 4
    else if text_eq name (text "redeemPolicy")
    then texts 7
    else if text_eq name (text "openPolicy")
    then texts 10
    else if text_eq name (text "settlePolicy")
    then Ty.list_type ∷ texts 5
    else []

abbrev pub compiler : Compiler
compiler = record {
  Expr = Term;
  bytes = Term.atoms;
  int = λ n. Term.atoms (of_int n);
  byte = λ n. Term.atoms (n ∷ []);
  bool = λ b. Term.atoms (of_bool b);
  dynamic_bytes = Term.atoms;
  TypeRef = Unit {0};
  parse_type_ref = λ _. ok tt;
  array = λ _ ts. Term.listed (contents ts);
  struct_object = λ _ fields. Term.atoms (join (field_contents fields));
  kind = kind_of;
  depth = depth_of;
  read_to_string = λ path. ok path;
  compile_source = λ code _. ok (record {
    contract_name = code;
    bytecode = 7 ∷ 8 ∷ code;
    state_start = 1;
    state_len = 1;
    template_hash = code;
  });
  Abi = Unit {0};
  abi_artifact = λ _ _. ok tt;
  check_consistency = λ _. ok tt;
  TypeArtifact = Ty;
  type_kind = kind_of_type;
  structs = λ _ _. none;
  AbiContract = Unit {0};
  contracts = λ _. [];
  contract = λ _ _. some tt;
  state_source = λ _. [];
  state_fields = λ _. [];
  entry = λ _ name. some (params_of name);
  covenant_decl_entry = λ _ name _. some (params_of name);
  Value = Bytes;
  int_value = of_int;
  bool_value = of_bool;
  byte_value = λ n. n ∷ [];
  text_value = λ x. x;
  bytes_value = λ x. x;
  array_value = join;
  object_value = λ _. [];
  encode_entry = λ _ _ _ values. ok (join values);
  encode_covenant_decl = λ _ _ _ _ values. ok (join values);
  add_data = λ _. ok [];
}
