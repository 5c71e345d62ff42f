-- ===== src/Order.antt =====
-- Total orders as an interface, and those that the code derives: numbers, strings by their bytes,
-- and pairs of fields in their order of declaration.
use Prim.Native.Nat.{compare}
use Prim.Native.Char.{code}
use Prim.Native.String.{String}
use kusd.Base.{ℕ, ◌≡◌, refl, Bool, true, false, List, [], ◌∷◌, Ordering, arith}

abbrev pub swap : Ordering → Ordering
swap Ordering.lt = Ordering.gt
swap Ordering.eq = Ordering.eq
swap Ordering.gt = Ordering.lt

-- `Ordering::then`
abbrev pub lex : Ordering → Ordering → Ordering
lex Ordering.lt o = Ordering.lt
lex Ordering.eq o = o
lex Ordering.gt o = Ordering.gt

-- `Ord`, with what its implementations promise.
pub record Order (K : Type 0) : Type 0 where
  pub cmp : K → K → Ordering
  pub cmp_eq : (a b : K) → cmp a b ≡ Ordering.eq → a ≡ b
  pub cmp_refl : (a : K) → cmp a a ≡ Ordering.eq
  pub cmp_flip : (a b : K) → cmp a b ≡ swap (cmp b a)
  pub cmp_trans :
      (a b c : K) → cmp a b ≡ Ordering.lt → cmp b c ≡ Ordering.lt → cmp a c ≡ Ordering.lt

-- A Rust string is its bytes, and is compared byte by byte.
abbrev pub Text : Type 0
Text = List ℕ

-- The bytes of an ASCII literal.
abbrev pub text : String → Text
text String.[] = []
text (String.◌∷◌ c s) = code c ∷ text s

unfoldable pub cmp_text : Text → Text → Ordering
cmp_text [] [] = Ordering.eq
cmp_text [] (y ∷ ys) = Ordering.lt
cmp_text (x ∷ xs) [] = Ordering.gt
cmp_text (x ∷ xs) (y ∷ ys) = lex (compare x y) (cmp_text xs ys)

pub cmp_text_eq : (a b : Text) → cmp_text a b ≡ Ordering.eq → a ≡ b
unfolding cmp_text
cmp_text_eq [] [] h = refl
cmp_text_eq [] (y ∷ ys) h = cc
cmp_text_eq (x ∷ xs) [] h = cc
cmp_text_eq (x ∷ xs) (y ∷ ys) h = ground (arith, cmp_text_eq xs ys)

pub cmp_text_refl : (a : Text) → cmp_text a a ≡ Ordering.eq
unfolding cmp_text
cmp_text_refl [] = refl
cmp_text_refl (x ∷ xs) = ground (arith, cmp_text_refl xs)

pub cmp_text_flip : (a b : Text) → cmp_text a b ≡ swap (cmp_text b a)
unfolding cmp_text
cmp_text_flip [] [] = refl
cmp_text_flip [] (y ∷ ys) = refl
cmp_text_flip (x ∷ xs) [] = refl
cmp_text_flip (x ∷ xs) (y ∷ ys) = ground (arith, cmp_text_flip xs ys)

pub cmp_text_trans :
    (a b c : Text)
    → cmp_text a b ≡ Ordering.lt
    → cmp_text b c ≡ Ordering.lt
    → cmp_text a c ≡ Ordering.lt
unfolding cmp_text
cmp_text_trans [] (y ∷ ys) (z ∷ zs) h k = refl
cmp_text_trans (x ∷ xs) (y ∷ ys) (z ∷ zs) h k =
    ground (arith, cmp_text_trans xs ys zs, cmp_text_eq xs ys)
cmp_text_trans [] [] c h k = cc
cmp_text_trans (x ∷ xs) [] c h k = cc
cmp_text_trans a (y ∷ ys) [] h k = cc

instance abbrev pub text_order : Order Text
text_order = record {
  cmp = cmp_text;
  cmp_eq = cmp_text_eq;
  cmp_refl = cmp_text_refl;
  cmp_flip = cmp_text_flip;
  cmp_trans = cmp_text_trans;
}

-- `==` on strings
unfoldable pub text_eq : Text → Text → Bool
text_eq a b = elim (cmp_text a b) [ Ordering.eq ↦ true | _ ↦ false ]

pub text_eq→eq : (a b : Text) → text_eq a b ≡ true → a ≡ b
unfolding text_eq
text_eq→eq a b h = ground (arith, cmp_text_eq a b)

pub text_eq_refl : (a : Text) → text_eq a a ≡ true
unfolding text_eq
text_eq_refl a = ground (arith, cmp_text_refl a)
