-- ===== src/Collections/TreeMap.antt =====
-- Rust's `BTreeMap` as its entries in ascending order of the keys (`BTreeSet` is a map into `()`).
pub mod Laws
use vitr_os.Base.{
  ℕ, ◌+◌, ◌≡◌, refl, Bool, true, false, not, ◌&&◌, ◌||◌, Option, none, some, List, [], ◌∷◌, All,
  if◌then◌else◌, Bool-cases, inl, inr, arith,
}
use vitr_os.Collections.Order.{Order, lt}

-- Neither key is below the other.
abbrev pub same {ℓ} : {K : Type ℓ} ⦃o : Order K⦄ → K → K → Bool
same a b = not (lt a b) && not (lt b a)

module _ {ℓ κ} {K : Type ℓ} {V : Type κ} ⦃o : Order K⦄ where
  -- An equal key has its value replaced.
  unfoldable pub insert : K → V → List (K × V) → List (K × V)
  insert k v [] = (k, v) ∷ []
  insert k v ((j, w) ∷ m) =
      if lt k j then (k, v) ∷ (j, w) ∷ m else if lt j k then (j, w) ∷ insert k v m else (k, v) ∷ m

  unfoldable pub get : K → List (K × V) → Option V
  get k [] = none
  get k ((j, w) ∷ m) = if same k j then some w else get k m

  unfoldable pub contains_key : K → List (K × V) → Bool
  contains_key k [] = false
  contains_key k ((j, w) ∷ m) = same k j || contains_key k m

  unfoldable pub delete : K → List (K × V) → List (K × V)
  delete k [] = []
  delete k ((j, w) ∷ m) = if same k j then m else (j, w) ∷ delete k m

  unfoldable pub pop_first : List (K × V) → Option (K × V × List (K × V))
  pop_first [] = none
  pop_first ((k, v) ∷ m) = some (k, v, m)

  abbrev pub IsSorted : List (K × V) → Type 0
  IsSorted [] = Unit
  IsSorted (e ∷ m) = All (λ f. lt e.0 f.0 ≡ true) m × IsSorted m
