-- ===== src/OrderedMap/Reads.antt =====
-- What a read of the map after an insertion finds.
use kusd.Base.{◌≡◌, ap, ◌⊎◌, inl, inr, true, Bool-cases, none, some, arith}
use kusd.Order.{Order}
use kusd.OrderedMap.{OrderedMap, get, insert}
use kusd.OrderedMap.Laws.{get-insert, same}

same-eq : {K : Type 0} ⦃o : Order K⦄ (a b : K) → same a b ≡ true → a ≡ b
same-eq ⦃o⦄ a b h = ground (arith, o.cmp_eq a b)

module _ {K V : Type 0} ⦃o : Order K⦄ where
  pub get-insert_split :
      (k p : K) (v w : V) (m : OrderedMap K V)
      → get k (insert p w m) ≡ some v
      → ((k ≡ p) × (v ≡ w)) ⊎ (get k m ≡ some v)
  get-insert_split k p v w m h = elim (Bool-cases (same k p)) [
    | inl q ↦ inl (same-eq k p q, ground (arith, get-insert k p w m, q, h))
    | inr q ↦ inr (ground (arith, get-insert k p w m, q, h))
  ]

  pub get-insert_self : (k : K) (v : V) (m : OrderedMap K V) → get k (insert k v m) ≡ some v
  get-insert_self k v m = ground (arith, get-insert k k v m, o.cmp_refl k)

  -- A key that is found stays found.
  pub get-insert-some :
      (k p : K) (v w : V) (m : OrderedMap K V)
      → get k m ≡ some v
      → (u : V) × (get k (insert p w m) ≡ some u)
  get-insert-some k p v w m h = elim (Bool-cases (same k p)) [
    | inl q ↦ (w, ground (arith, get-insert k p w m, q))
    | inr q ↦ (v, ground (arith, get-insert k p w m, q, h))
  ]

  -- An insertion under a new key leaves the other reads alone.
  pub get-insert_new :
      (k p : K) (v w : V) (m : OrderedMap K V)
      → get p m ≡ none
      → get k m ≡ some v
      → get k (insert p w m) ≡ some v
  get-insert_new k p v w m new h = elim (Bool-cases (same k p)) [
    | inl q ↦ absurd (ground (arith, ap (λ i. get i m) (same-eq k p q), new, h))
    | inr q ↦ ground (arith, get-insert k p w m, q, h)
  ]
