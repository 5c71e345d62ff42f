-- ===== src/Indexer/Rollback.antt =====
-- The two loops of `apply` in src/indexer.rs and those of `rollback_tip` undo one another.
use kusd.Base.{
  ◌≡◌, ◌≢◌, refl, ◌∙◌, ap, none, some, List, [], ◌∷◌, ok, Option-cases, Result-cases, inl, inr,
  arith,
}
use kusd.Order.{Text}
use kusd.OrderedMap.{get, insert, remove}
use kusd.OrderedMap.Laws.{Sorted, insert-Sorted, remove-Sorted, get-remove}
use kusd.OrderedMap.Undo.{
  insert_comm, remove_comm, remove-insert_new, insert-remove, get-remove_self,
}
use kusd.Indexer.Data.{Outpoint, outpoint_order, Entity, Entities}
use kusd.Indexer.Ledger.{consume, create, insert_all, remove_all}

pub remove_all-Sorted : (os : List Outpoint) (m : Entities) → Sorted m → Sorted (remove_all os m)
unfolding remove_all
remove_all-Sorted [] m s = s
remove_all-Sorted (o ∷ os) m s = remove_all-Sorted os (remove o m) (remove-Sorted o m s)

pub insert_all-Sorted :
    (es : List (Outpoint × Entity)) (m : Entities) → Sorted m → Sorted (insert_all es m)
unfolding insert_all
insert_all-Sorted [] m s = s
insert_all-Sorted ((o, e) ∷ es) m s = insert_all-Sorted es (insert o e m) (insert-Sorted o e m s)

remove-remove_all :
    (o : Outpoint) (os : List Outpoint) (m : Entities)
    → Sorted m
    → remove_all os (remove o m) ≡ remove o (remove_all os m)
unfolding remove_all
remove-remove_all o [] m s = refl
remove-remove_all o (p ∷ os) m s =
    rw (remove_comm p o m s) (remove-remove_all o os (remove p m) (remove-Sorted p m s))

-- One step of each loop, taken apart.
pub create-cons :
    (txid : Text) (o : Outpoint) (e : Entity) (cs : List (Outpoint × Entity)) (m m' : Entities)
    (keys : List Outpoint)
    → create txid ((o, e) ∷ cs) m ≡ ok (keys, m')
    → (get o m ≡ none)
      × (rest : List Outpoint) × (keys ≡ o ∷ rest)
      × (create txid cs (insert o e m) ≡ ok (rest, m'))
unfolding create
create-cons txid o e cs m m' keys h = elim (Result-cases (create txid cs (insert o e m))) [
  | inl ((rest, last), q) ↦ (ground arith, rest, ground arith, ground arith)
  | inr (x, q) ↦ absurd (ground arith)
]

pub create-nil :
    (txid : Text) (m m' : Entities) (keys : List Outpoint)
    → create txid [] m ≡ ok (keys, m')
    → (keys ≡ []) × (m' ≡ m)
unfolding create
create-nil txid m m' keys h = ground arith

pub create-Sorted :
    (txid : Text) (cs : List (Outpoint × Entity)) (m m' : Entities) (keys : List Outpoint)
    → Sorted m
    → create txid cs m ≡ ok (keys, m')
    → Sorted m'
create-Sorted txid [] m m' keys s h = rw (create-nil txid m m' keys h).1 s
create-Sorted txid ((o, e) ∷ cs) m m' keys s h =
    let (new, rest, _, k) = create-cons txid o e cs m m' keys h in
    create-Sorted txid cs (insert o e m) m' rest (insert-Sorted o e m s) k

-- Removing what was created gives back the entities before.
pub remove_all-create :
    (txid : Text) (cs : List (Outpoint × Entity)) (m m' : Entities) (keys : List Outpoint)
    → Sorted m
    → create txid cs m ≡ ok (keys, m')
    → remove_all keys m' ≡ m
unfolding remove_all
remove_all-create txid [] m m' keys s h =
    let (none_made, same_map) = create-nil txid m m' keys h in rw (none_made, same_map) refl
remove_all-create txid ((o, e) ∷ cs) m m' keys s h =
    let (new, rest, made, k) = create-cons txid o e cs m m' keys h in
    let after = insert-Sorted o e m s in
    rw made (
      remove-remove_all o rest m' (create-Sorted txid cs (insert o e m) m' rest after k)
      ∙ ap (remove o) (remove_all-create txid cs (insert o e m) m' rest after k)
      ∙ remove-insert_new o e m new s)

pub consume-nil :
    (m m' : Entities) (taken : List (Outpoint × Entity))
    → consume [] m ≡ ok (taken, m')
    → (taken ≡ []) × (m' ≡ m)
unfolding consume
consume-nil m m' taken h = ground arith

pub consume-cons :
    (o : Outpoint) (os : List Outpoint) (m m' : Entities) (taken : List (Outpoint × Entity))
    → consume (o ∷ os) m ≡ ok (taken, m')
    → (e : Entity) × (rest : List (Outpoint × Entity)) × (get o m ≡ some e)
      × (taken ≡ (o, e) ∷ rest)
      × (consume os (remove o m) ≡ ok (rest, m'))
unfolding consume
consume-cons o os m m' taken h = elim (Result-cases (consume os (remove o m))) [
  | inl ((rest, last), q) ↦ elim (Option-cases (get o m)) [
    | inl unknown ↦ absurd (ground arith)
    | inr (e, found) ↦ (e, rest, found, ground arith, ground arith)
  ]
  | inr (x, q) ↦ absurd (ground arith)
]

pub consume-Sorted :
    (os : List Outpoint) (m m' : Entities) (taken : List (Outpoint × Entity))
    → Sorted m
    → consume os m ≡ ok (taken, m')
    → Sorted m'
consume-Sorted [] m m' taken s h = rw (consume-nil m m' taken h).1 s
consume-Sorted (o ∷ os) m m' taken s h =
    let (e, rest, _, _, k) = consume-cons o os m m' taken h in
    consume-Sorted os (remove o m) m' rest (remove-Sorted o m s) k

-- An outpoint that is not in the map that was consumed from is not among the consumed.
insert-insert_all :
    (p : Outpoint) (x : Entity) (os : List Outpoint) (m m' n : Entities)
    (taken : List (Outpoint × Entity))
    → Sorted m
    → Sorted n
    → get p m ≡ none
    → consume os m ≡ ok (taken, m')
    → insert_all taken (insert p x n) ≡ insert p x (insert_all taken n)
unfolding insert_all
insert-insert_all p x [] m m' n taken s t absent h = rw (consume-nil m m' taken h).0 refl
insert-insert_all p x (o ∷ os) m m' n taken s t absent h =
    let (e, rest, found, made, k) = consume-cons o os m m' taken h in
    let other : o ≢ p = λ q. cc (found, absent, ap (λ (j : Outpoint). get j m) q) in
    let gone : get p (remove o m) ≡ none = ground (arith, get-remove p o m s) in
    rw made (
      ap (insert_all rest) (insert_comm o p e x n other t)
      ∙ insert-insert_all p x os (remove o m) m' (insert o e n) rest (remove-Sorted o m s)
          (insert-Sorted o e n t) gone k)

-- Inserting what was consumed gives back the entities before.
pub insert_all-consume :
    (os : List Outpoint) (m m' : Entities) (taken : List (Outpoint × Entity))
    → Sorted m
    → consume os m ≡ ok (taken, m')
    → insert_all taken m' ≡ m
unfolding insert_all
insert_all-consume [] m m' taken s h =
    let (none_taken, same_map) = consume-nil m m' taken h in rw (none_taken, same_map) refl
insert_all-consume (o ∷ os) m m' taken s h =
    let (e, rest, found, made, k) = consume-cons o os m m' taken h in
    let less = remove-Sorted o m s in
    rw made (
      insert-insert_all o e os (remove o m) m' m' rest less
        (consume-Sorted os (remove o m) m' rest less k) (get-remove_self o m s) k
      ∙ ap (insert o e) (insert_all-consume os (remove o m) m' rest less k)
      ∙ insert-remove o e m found s)
