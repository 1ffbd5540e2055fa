-- ===== src/HashMap.antt =====
-- The `std::collections::HashMap` of crates/resp-store (the store's `map` and the cursors of
-- scan.rs), as the list of its entries in iteration order. A new key may rehash the whole table,
-- so its insertion reorders the entries by an arbitrary permutation, a parameter of the model.
pub mod Laws
use pg_resp.Prelude.{
  ℕ, ◌+◌, ◌≡◌, Bool, Option, none, some, List, [], ◌∷◌, ◌==◌, Eq, if◌then◌else◌, is_some, length,
}
use mathlib.Core.List.{Permᴰ}

-- The order in which a table holds its entries after it took in a new one.
pub record HashOrder {ℓ} (A : Type ℓ) : Type ℓ where
  pub order : List A → List A
  pub order_perm : (l : List A) → Permᴰ (order l) l

module _ {ℓ} {K V : Type ℓ} ⦃e : Eq K⦄ where
  -- `map.get(k)`
  unfoldable pub lookup : K → List (K × V) → Option V
  lookup k [] = none
  lookup k ((j, v) ∷ m) = if j == k then some v else lookup k m

  -- `map.contains_key(k)`
  abbrev pub contains_key : K → List (K × V) → Bool
  contains_key k m = is_some (lookup k m)

  -- what `map.remove(k)` leaves
  unfoldable pub remove : K → List (K × V) → List (K × V)
  remove k [] = []
  remove k ((j, v) ∷ m) = let rest = remove k m in if j == k then m else (j, v) ∷ rest

  -- a write through `map.get_mut(k)`
  unfoldable pub modify : K → (V → V) → List (K × V) → List (K × V)
  modify k f [] = []
  modify k f ((j, v) ∷ m) =
      let rest = modify k f m in if j == k then (j, f v) ∷ m else (j, v) ∷ rest

  -- `map.insert(k, v)`
  unfoldable pub insert : HashOrder (K × V) → K → V → List (K × V) → List (K × V)
  insert h k v m =
      let fresh = h.order ((k, v) ∷ m) in if contains_key k m then modify k (λ _. v) m else fresh

  -- No key twice: what a table guarantees.
  abbrev pub Distinct : List (K × V) → Type ℓ
  Distinct [] = Unit
  Distinct ((k, v) ∷ m) = (lookup k m ≡ none) × Distinct m

-- The sum of a weight over the entries.
abbrev pub total {ℓ} : {A : Type ℓ} → (A → ℕ) → List A → ℕ
total w [] = 0
total w (x ∷ m) = w x + total w m
