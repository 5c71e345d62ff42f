-- ===== src/OrderedMap.antt =====
-- `BTreeMap`: a list of entries in the order of their keys.
pub mod Laws
pub mod Undo
pub mod Reads
use kusd.Base.{◌≡◌, Bool, true, false, Option, none, some, List, [], ◌∷◌, Ordering}
use kusd.Order.{Order}

abbrev pub OrderedMap : Type 0 → Type 0 → Type 0
OrderedMap K V = List (K × V)

module _ {K V : Type 0} ⦃o : Order K⦄ where
  unfoldable pub get : K → OrderedMap K V → Option V
  get k [] = none
  get k ((j, v) ∷ m) = elim (o.cmp k j) [ Ordering.eq ↦ some v | _ ↦ get k m ]

  -- The new entry stands in place of an old one with its key; `BTreeMap::insert` also returns the
  -- old value, which is `get k m`.
  unfoldable pub insert : K → V → OrderedMap K V → OrderedMap K V
  insert k v [] = (k, v) ∷ []
  insert k v ((j, w) ∷ m) = elim (o.cmp k j) [
    | Ordering.lt ↦ (k, v) ∷ (j, w) ∷ m
    | Ordering.eq ↦ (k, v) ∷ m
    | Ordering.gt ↦ (j, w) ∷ insert k v m
  ]

  unfoldable pub remove : K → OrderedMap K V → OrderedMap K V
  remove k [] = []
  remove k ((j, w) ∷ m) = elim (o.cmp k j) [
    | Ordering.lt ↦ (j, w) ∷ m
    | Ordering.eq ↦ m
    | Ordering.gt ↦ (j, w) ∷ remove k m
  ]

-- `values()`
abbrev pub values : {K V : Type 0} → OrderedMap K V → List V
values [] = []
values ((k, v) ∷ m) = v ∷ values m

-- `keys()`
abbrev pub keys : {K V : Type 0} → OrderedMap K V → List K
keys [] = []
keys ((k, v) ∷ m) = k ∷ keys m
