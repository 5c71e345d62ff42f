-- ===== src/Silverscript/Tests.antt =====
-- Runs of src/silverscript.rs.
use kusd.Base.{◌≡◌, ◌≢◌, ◌↔◌, ◌<◌, refl, List, [], ◌∷◌, map, subst, ok, err, arith}
use kusd.Order.{Text}
use kusd.Silverscript.{Bytes, ExprKind}
use kusd.Silverscript.Encode.{CompilerError, expr_value, collect, array_of, convert_kind}
use kusd.Silverscript.Typed.{Subject, WellTyped}
use kusd.Silverscript.Accepted.{converted_iff_typed}
use kusd.Silverscript.Finite.{All, IsFinite, expr_value_ends}
use kusd.Silverscript.Sample.{Term, Ty, compiler, kind_of, depth_of, join}

nested :
    expr_value compiler 2 tt (Term.listed ((1 ∷ []) ∷ (2 ∷ []) ∷ [])) Ty.list_type ≡ ok (1 ∷ 2 ∷ [])
unfolding expr_value convert_kind array_of collect join
nested = refl

starved :
    expr_value compiler 1 tt (Term.listed ((1 ∷ []) ∷ [])) Ty.list_type
    ≡ err CompilerError.out_of_fuel
unfolding expr_value convert_kind array_of collect
starved = refl

atoms_below : (xs : List Bytes) → All (λ v. depth_of v < 1) (map Term.atoms xs)
unfolding All
atoms_below [] = tt
atoms_below (x ∷ xs) = (omega arith, atoms_below xs)

array_inj : (xs ys : List Term) → ExprKind.array xs ≡ ExprKind.array ys → xs ≡ ys
array_inj xs ys h = ground (arith, h)

elements_below :
    (e : Term) (values : List Term)
    → kind_of e ≡ ExprKind.array values
    → All (λ v. depth_of v < depth_of e) values
elements_below (Term.atoms x) values h = absurd (ground (arith, h))
elements_below (Term.listed xs) values h =
    subst (All (λ v. depth_of v < 1)) (array_inj (map Term.atoms xs) values h) (atoms_below xs)

fields_below :
    (e : Term) (fields : List (Text × Term))
    → kind_of e ≡ ExprKind.struct_literal fields
    → All (λ field. depth_of field.1 < depth_of e) fields
fields_below (Term.atoms x) fields h = absurd (ground (arith, h))
fields_below (Term.listed xs) fields h = absurd (ground (arith, h))

compiler-IsFinite : IsFinite compiler
compiler-IsFinite = record { elements = elements_below; fields = fields_below }

expr_value_ends_example :
    (expr_value compiler 5 tt (Term.listed ((1 ∷ []) ∷ [])) Ty.list_type
      ≡ expr_value compiler 2 tt (Term.listed ((1 ∷ []) ∷ [])) Ty.list_type)
    × (expr_value compiler 5 tt (Term.listed ((1 ∷ []) ∷ [])) Ty.list_type
        ≢ err CompilerError.out_of_fuel)
expr_value_ends_example =
    expr_value_ends compiler compiler-IsFinite tt 5 (Term.listed ((1 ∷ []) ∷ [])) Ty.list_type
      (omega arith)

converted_iff_typed_example :
    ((v : Bytes) × (expr_value compiler 2 tt (Term.listed ((1 ∷ []) ∷ [])) Ty.list_type ≡ ok v))
    ↔ WellTyped compiler tt (Subject.single (Term.listed ((1 ∷ []) ∷ [])) Ty.list_type)
converted_iff_typed_example =
    converted_iff_typed compiler tt (Term.listed ((1 ∷ []) ∷ [])) Ty.list_type compiler-IsFinite
