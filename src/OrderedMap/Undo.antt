-- ===== src/OrderedMap/Undo.antt =====
-- Writes of the map that commute, and writes that undo one another.
use kusd.Base.{◌≡◌, ◌≢◌, none, some, arith}
use kusd.Order.{Order}
use kusd.OrderedMap.{OrderedMap, get, insert, remove}
use kusd.OrderedMap.Laws.{Sorted, insert-Sorted, remove-Sorted, get-insert, get-remove, map_ext}

module _ {K V : Type 0} ⦃o : Order K⦄ where
  pub insert_comm :
      (a b : K) (v w : V) (m : OrderedMap K V)
      → a ≢ b
      → Sorted m
      → insert a v (insert b w m) ≡ insert b w (insert a v m)
  insert_comm a b v w m ne s =
      map_ext (insert a v (insert b w m)) (insert b w (insert a v m))
        (insert-Sorted a v (insert b w m) (insert-Sorted b w m s))
        (insert-Sorted b w (insert a v m) (insert-Sorted a v m s))
        λ k. ground (
          arith,
          get-insert k a v (insert b w m),
          get-insert k b w m,
          get-insert k b w (insert a v m),
          get-insert k a v m,
          o.cmp_eq k a,
          o.cmp_eq k b,
        )

  pub remove_comm :
      (a b : K) (m : OrderedMap K V) → Sorted m → remove a (remove b m) ≡ remove b (remove a m)
  remove_comm a b m s =
      map_ext (remove a (remove b m)) (remove b (remove a m))
        (remove-Sorted a (remove b m) (remove-Sorted b m s))
        (remove-Sorted b (remove a m) (remove-Sorted a m s))
        λ k. ground (
          arith,
          get-remove k a (remove b m) (remove-Sorted b m s),
          get-remove k b m s,
          get-remove k b (remove a m) (remove-Sorted a m s),
          get-remove k a m s,
        )

  -- Removing a new entry undoes its insertion.
  pub remove-insert_new :
      (a : K) (v : V) (m : OrderedMap K V) → get a m ≡ none → Sorted m → remove a (insert a v m) ≡ m
  remove-insert_new a v m new s =
      map_ext (remove a (insert a v m)) m (remove-Sorted a (insert a v m) (insert-Sorted a v m s)) s
        λ k. ground (
          arith,
          get-remove k a (insert a v m) (insert-Sorted a v m s),
          get-insert k a v m,
          o.cmp_eq k a,
        )

  -- Inserting what was read undoes a removal.
  pub insert-remove :
      (a : K) (v : V) (m : OrderedMap K V)
      → get a m ≡ some v
      → Sorted m
      → insert a v (remove a m) ≡ m
  insert-remove a v m found s =
      map_ext (insert a v (remove a m)) m (insert-Sorted a v (remove a m) (remove-Sorted a m s)) s
        λ k. ground (arith, get-insert k a v (remove a m), get-remove k a m s, o.cmp_eq k a)

  pub get-remove_self : (a : K) (m : OrderedMap K V) → Sorted m → get a (remove a m) ≡ none
  get-remove_self a m s = ground (arith, get-remove a a m s, o.cmp_refl a)
