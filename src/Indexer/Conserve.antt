-- ===== src/Indexer/Conserve.antt =====
-- What a transaction does to the aggregates of src/indexer.rs: they change by what it creates less
-- what it consumes.
use kusd.Base.{◌≡◌, refl, sym, ap, ◌∙◌, none, some, List, [], ◌∷◌, ok, arith}
use kusd.Int.{ℤ, ◌+ℤ◌, +ℤ_assoc, +ℤ_comm, zero_+ℤ}
use kusd.Order.{Text, Order}
use kusd.OrderedMap.{OrderedMap, get, insert, remove, values}
use kusd.OrderedMap.Laws.{Sorted, remove-Sorted, get-remove}
use kusd.OrderedMap.Undo.{get-remove_self, insert-remove}
use kusd.Indexer.Data.{Outpoint, outpoint_order, Entity, Entities, Snapshot, Indexer}
use kusd.Indexer.Recalculate.{Outcome}
use kusd.Indexer.Ledger.{consume, create, apply}
use kusd.Indexer.Consistency.{IsConsistent, recalculate-entities}
use kusd.Indexer.Governed.{looked_up}
use kusd.Indexer.Rollback.{create-cons, create-nil, consume-cons, consume-nil}
use kusd.Indexer.RoundTrip.{apply-ok, apply-Undoable}
use kusd.Indexer.Aggregates.{sum, supply_of, debt_of, kps_of}
use kusd.Indexer.Refinement.{Summary, recalculate_refines}

swap_front : (a b c : ℤ) → a +ℤ (b +ℤ c) ≡ b +ℤ (a +ℤ c)
swap_front a b c = sym (+ℤ_assoc a b c) ∙ ap (λ z. z +ℤ c) (+ℤ_comm a b) ∙ +ℤ_assoc b a c

module _ {K V : Type 0} ⦃o : Order K⦄ (f : V → ℤ) where
  pub sum-insert :
      (k : K) (v : V) (m : OrderedMap K V)
      → get k m ≡ none
      → sum f (values (insert k v m)) ≡ f v +ℤ sum f (values m)
  unfolding get insert
  sum-insert k v [] new = refl
  sum-insert k v ((j, w) ∷ m) new =
      ground (arith, sum-insert k v m, swap_front (f w) (f v) (sum f (values m)))

  pub sum-remove :
      (k : K) (v : V) (m : OrderedMap K V)
      → get k m ≡ some v
      → Sorted m
      → f v +ℤ sum f (values (remove k m)) ≡ sum f (values m)
  sum-remove k v m found s =
      sym (sum-insert k v (remove k m) (get-remove_self k m s))
      ∙ ap (λ n. sum f (values n)) (insert-remove k v m found s)

abbrev Within : Entities → Entities → Type 0
Within n m = (o : Outpoint) (e : Entity) → get o n ≡ some e → get o m ≡ some e

-- The loop runs on a map that has lost entries of `m`, and finds what `m` has.
consume-Within :
    (os : List Outpoint) (n m m' : Entities) (taken : List (Outpoint × Entity))
    → Sorted n
    → Within n m
    → consume os n ≡ ok (taken, m')
    → values taken ≡ looked_up os m
unfolding looked_up
consume-Within [] n m m' taken s w h = let r = consume-nil n m' taken h in ground (arith, r)
consume-Within (o ∷ os) n m m' taken s w h =
    let (e, rest, found, split, k) = consume-cons o os n m' taken h in
    let here = w o e found in
    let less : Within (remove o n) m = λ p x q. w p x (ground (arith, get-remove p o n s, q)) in
    let more = consume-Within os (remove o n) m m' rest (remove-Sorted o n s) less k in
    ground (arith, here, split, more)

pub consume-looked_up :
    (os : List Outpoint) (m m' : Entities) (taken : List (Outpoint × Entity))
    → Sorted m
    → consume os m ≡ ok (taken, m')
    → values taken ≡ looked_up os m
consume-looked_up os m m' taken s h = consume-Within os m m m' taken s (λ o e q. q) h

module _ (f : Entity → ℤ) where
  consume-sum :
      (os : List Outpoint) (m m' : Entities) (taken : List (Outpoint × Entity))
      → Sorted m
      → consume os m ≡ ok (taken, m')
      → sum f (values taken) +ℤ sum f (values m') ≡ sum f (values m)
  consume-sum [] m m' taken s h =
      let (e, n) = consume-nil m m' taken h in rw (e, n) (zero_+ℤ (sum f (values m)))
  consume-sum (o ∷ os) m m' taken s h =
      let (e, rest, found, split, k) = consume-cons o os m m' taken h in
      rw split (
        +ℤ_assoc (f e) (sum f (values rest)) (sum f (values m'))
        ∙ ap (λ z. f e +ℤ z) (consume-sum os (remove o m) m' rest (remove-Sorted o m s) k)
        ∙ sum-remove f o e m found s)

  create-sum :
      (txid : Text) (cs : List (Outpoint × Entity)) (m m' : Entities) (keys : List Outpoint)
      → create txid cs m ≡ ok (keys, m')
      → sum f (values m') ≡ sum f (values cs) +ℤ sum f (values m)
  create-sum txid [] m m' keys h =
      let (_, n) = create-nil txid m m' keys h in rw n (sym (zero_+ℤ (sum f (values m))))
  create-sum txid ((o, e) ∷ cs) m m' keys h =
      let (new, rest, _, k) = create-cons txid o e cs m m' keys h in
      create-sum txid cs (insert o e m) m' rest k
      ∙ ap (λ z. sum f (values cs) +ℤ z) (sum-insert f o e m new)
      ∙ swap_front (sum f (values cs)) (f e) (sum f (values m))
      ∙ sym (+ℤ_assoc (f e) (sum f (values cs)) (sum f (values m)))

  -- For any part of the aggregates.
  pub balance :
      (txid : Text) (consumed : List Outpoint) (created : List (Outpoint × Entity))
      (ix ix' : Indexer)
      → IsConsistent ix.snapshot
      → apply txid consumed created ix ≡ (ok tt, ix')
      → sum f (looked_up consumed ix.snapshot.entities) +ℤ sum f (values ix'.snapshot.entities)
        ≡ sum f (values created) +ℤ sum f (values ix.snapshot.entities)
  balance txid consumed created ix ix' c h =
      let (a, s', st, e) = apply-ok txid consumed created ix ix' h in
      let m = ix.snapshot.entities in
      let took = consume-sum consumed m st.between a.consumed c.sorted st.takes in
      let held = consume-looked_up consumed m st.between a.consumed c.sorted st.takes in
      let made = create-sum txid created st.between st.after a.created st.puts in
      let kept : ix'.snapshot.entities ≡ st.after =
        ap (λ (i : Indexer). i.snapshot.entities) e
        ∙ ap (λ (o : Outcome). o.1.entities) (sym st.recalculates)
        ∙ recalculate-entities (record ix.snapshot { entities = st.after }) in
      rw (← held, kept, made)
        (swap_front (sum f (values a.consumed)) (sum f (values created)) (sum f (values st.between))
          ∙ ap (λ z. sum f (values created) +ℤ z) took)

pub IsConsistent-Summary : (s : Snapshot) → IsConsistent s → Summary (values s.entities) s
IsConsistent-Summary s c = recalculate_refines s s c.aggregates

-- From an indexer with a consistent snapshot, a successful `apply` moves the circulating supply, the
-- debt and the KPS supply by what the created outputs add, less what the consumed outpoints held:
-- the sum of the held and the aggregate after is the sum of the created and the aggregate before.
pub apply_balances :
    (txid : Text) (consumed : List Outpoint) (created : List (Outpoint × Entity)) (ix ix' : Indexer)
    → IsConsistent ix.snapshot
    → apply txid consumed created ix ≡ (ok tt, ix')
    → let held = looked_up consumed ix.snapshot.entities in
      (sum supply_of held +ℤ ix'.snapshot.circulating_supply
        ≡ sum supply_of (values created) +ℤ ix.snapshot.circulating_supply)
      × (sum debt_of held +ℤ ix'.snapshot.position_debt
          ≡ sum debt_of (values created) +ℤ ix.snapshot.position_debt)
      × (sum kps_of held +ℤ ix'.snapshot.kps_supply
          ≡ sum kps_of (values created) +ℤ ix.snapshot.kps_supply)
apply_balances txid consumed created ix ix' c h =
    let b = IsConsistent-Summary ix.snapshot c in
    let a =
      IsConsistent-Summary ix'.snapshot
        (apply-Undoable txid consumed created ix ix' c h).consistent in
    (
      rw (a.supply, b.supply) (balance supply_of txid consumed created ix ix' c h),
      rw (a.debt, b.debt) (balance debt_of txid consumed created ix ix' c h),
      rw (a.kps, b.kps) (balance kps_of txid consumed created ix ix' c h),
    )
