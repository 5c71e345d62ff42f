-- ===== src/OrderedMap/Laws.antt =====
-- The laws of the map: reading after a write, and equality of maps that read alike.
use kusd.Base.{
  ◌≡◌, ◌≢◌, ◌⊎◌, inl, inr, refl, sym, ◌∙◌, ap, Bool, true, false, none, some, [], ◌∷◌, Ordering,
  arith, if◌then◌else◌,
}
use kusd.Order.{Order, swap}
use kusd.OrderedMap.{OrderedMap, get, insert, remove}

-- Equality of keys as a test.
abbrev pub same : {K : Type 0} ⦃o : Order K⦄ → K → K → Bool
same ⦃o⦄ a b = elim (o.cmp a b) [ Ordering.eq ↦ true | _ ↦ false ]

Ordering-cases : (c : Ordering) → (c ≡ Ordering.lt) ⊎ (c ≡ Ordering.eq) ⊎ (c ≡ Ordering.gt)
Ordering-cases Ordering.lt = inl refl
Ordering-cases Ordering.eq = inr (inl refl)
Ordering-cases Ordering.gt = inr (inr refl)

module _ {K V : Type 0} ⦃o : Order K⦄ where
  -- Every key of the map is greater.
  abbrev pub Above : K → OrderedMap K V → Type 0
  Above k [] = Unit
  Above k ((j, v) ∷ m) = (o.cmp k j ≡ Ordering.lt) × Above k m

  abbrev pub Sorted : OrderedMap K V → Type 0
  Sorted [] = Unit
  Sorted ((k, v) ∷ m) = Above k m × Sorted m

  Above-trans : (j k : K) (m : OrderedMap K V) → o.cmp j k ≡ Ordering.lt → Above k m → Above j m
  Above-trans j k [] h a = tt
  Above-trans j k ((i, v) ∷ m) h a = (o.cmp_trans j k i h a.0, Above-trans j k m h a.1)

  pub Above-get : (k : K) (m : OrderedMap K V) → Above k m → get k m ≡ none
  unfolding get
  Above-get k [] a = refl
  Above-get k ((j, v) ∷ m) a = ground (arith, Above-get k m)

  Above-insert :
      (j k : K) (v : V) (m : OrderedMap K V)
      → o.cmp j k ≡ Ordering.lt
      → Above j m
      → Above j (insert k v m)
  unfolding insert
  Above-insert j k v [] h a = (h, tt)
  Above-insert j k v ((i, w) ∷ m) h a = ground (arith, Above-insert j k v m)

  Above-remove : (j k : K) (m : OrderedMap K V) → Above j m → Above j (remove k m)
  unfolding remove
  Above-remove j k [] a = tt
  Above-remove j k ((i, w) ∷ m) a = ground (arith, Above-remove j k m)

  pub insert-Sorted : (k : K) (v : V) (m : OrderedMap K V) → Sorted m → Sorted (insert k v m)
  unfolding insert
  insert-Sorted k v [] s = (tt, tt)
  insert-Sorted k v ((j, w) ∷ m) s = ground (
    arith,
    insert-Sorted k v m,
    Above-trans k j m,
    Above-insert j k v m,
    o.cmp_flip j k,
    o.cmp_eq k j,
  )

  pub remove-Sorted : (k : K) (m : OrderedMap K V) → Sorted m → Sorted (remove k m)
  unfolding remove
  remove-Sorted k [] s = tt
  remove-Sorted k ((j, w) ∷ m) s = ground (arith, remove-Sorted k m, Above-remove j k m)

  pub get-insert :
      (j k : K) (v : V) (m : OrderedMap K V)
      → get j (insert k v m) ≡ (if same j k then some v else get j m)
  unfolding get insert
  get-insert j k v [] = ground arith
  get-insert j k v ((i, w) ∷ m) =
      ground (arith, get-insert j k v m, o.cmp_eq k i, o.cmp_eq j k, o.cmp_eq j i)

  pub get-remove :
      (j k : K) (m : OrderedMap K V)
      → Sorted m
      → get j (remove k m) ≡ (if same j k then none else get j m)
  unfolding get remove
  get-remove j k [] s = ground arith
  get-remove j k ((i, w) ∷ m) s = ground (
    arith,
    get-remove j k m,
    Above-get j m,
    Above-trans j i m,
    o.cmp_eq k i,
    o.cmp_eq j k,
    o.cmp_eq j i,
  )

  -- Under one key at the head the tails read alike.
  tails :
      (k : K) (v w : V) (m n : OrderedMap K V)
      → Above k m
      → Above k n
      → ((x : K) → get x ((k, v) ∷ m) ≡ get x ((k, w) ∷ n))
      → (x : K) → get x m ≡ get x n
  unfolding get
  tails k v w m n a b h x = ground (arith, h x, Above-get k m, Above-get k n, o.cmp_eq x k)

  -- A head that is smaller than the other map's is missing there.
  head_missing :
      (j k : K) (v w : V) (m n : OrderedMap K V)
      → o.cmp j k ≡ Ordering.lt
      → Above k n
      → get j ((j, v) ∷ m) ≢ get j ((k, w) ∷ n)
  unfolding get
  head_missing j k v w m n lt above h =
      ground (arith, o.cmp_refl j, Above-get j n (Above-trans j k n lt above))

  ext_same :
      (k : K) (v w : V) (m n : OrderedMap K V)
      → Above k m
      → Above k n
      → ((x : K) → get x ((k, v) ∷ m) ≡ get x ((k, w) ∷ n))
      → (((x : K) → get x m ≡ get x n) → m ≡ n)
      → (k, v) ∷ m ≡ (k, w) ∷ n
  unfolding get
  ext_same k v w m n a b h rest =
      let heads : v ≡ w = ground (arith, h k, o.cmp_refl k) in
      let equal : m ≡ n = rest (tails k v w m n a b h) in cc

  ext_step :
      (j k : K) (v w : V) (m n : OrderedMap K V)
      → Sorted ((j, v) ∷ m)
      → Sorted ((k, w) ∷ n)
      → ((x : K) → get x ((j, v) ∷ m) ≡ get x ((k, w) ∷ n))
      → (((x : K) → get x m ≡ get x n) → m ≡ n)
      → (j, v) ∷ m ≡ (k, w) ∷ n
  ext_step j k v w m n s t h rest = elim (Ordering-cases (o.cmp j k)) [
    | inl lt ↦ absurd (head_missing j k v w m n lt t.0 (h j))
    | inr (inl e) ↦
        let p = o.cmp_eq j k e in rw p (ext_same k v w m n (rw p at (s.0)) t.0 (rw p at h) rest)
    | inr (inr gt) ↦ absurd (head_missing k j w v n m (o.cmp_flip k j ∙ ap swap gt) s.0 (sym (h k)))
  ]

  -- Two maps that read alike are equal.
  pub map_ext : (m n : OrderedMap K V) → Sorted m → Sorted n → ((k : K) → get k m ≡ get k n) → m ≡ n
  unfolding get
  map_ext [] [] s t h = refl
  map_ext [] ((k, v) ∷ n) s t h = ground (arith, h k, o.cmp_refl k)
  map_ext ((k, v) ∷ m) [] s t h = ground (arith, h k, o.cmp_refl k)
  map_ext ((j, v) ∷ m) ((k, w) ∷ n) s t h = ext_step j k v w m n s t h (map_ext m n s.1 t.1)
