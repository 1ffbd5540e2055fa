-- ===== src/HashMap/Laws.antt =====
-- What the operations of a table do to lookups, to distinctness, to its size and to a weight
-- summed over its entries.
use pg_resp.Prelude.{
  ℕ, suc, ◌+◌, ◌≡◌, refl, sym, ap, ◌∙◌, true, false, none, some, List, [], ◌∷◌, arith, ◌==◌, eq_iff,
  Eq, if◌then◌else◌, is_some, length, Bool-cases, Option-cases, inl, inr,
}
use pg_resp.HashMap.{HashOrder, lookup, contains_key, remove, modify, insert, Distinct, total}
use mathlib.Core.List.{Permᴰ}
use mathlib.Core.Path.{subst₂}

module _ {ℓ} {K V : Type ℓ} ⦃e : Eq K⦄ where
  pub lookup-modify :
      (k j : K) (f : V → V) (m : List (K × V))
      → lookup j (modify k f m)
        ≡ (if k == j then (elim (lookup j m) [ none ↦ none | some v ↦ some (f v) ]) else lookup j m)
  unfolding lookup modify
  lookup-modify k j f [] = ground arith
  lookup-modify k j f ((i, v) ∷ m) =
      ground (arith, lookup-modify k j f m, eq_iff i k, eq_iff i j, eq_iff k j)

  pub lookup-remove_ne :
      (k j : K) (m : List (K × V)) → (k == j) ≡ false → lookup j (remove k m) ≡ lookup j m
  unfolding lookup remove
  lookup-remove_ne k j [] h = refl
  lookup-remove_ne k j ((i, v) ∷ m) h =
      ground (arith, lookup-remove_ne k j m h, eq_iff i k, eq_iff i j, eq_iff k j)

  pub lookup-remove_self : (k : K) (m : List (K × V)) → Distinct m → lookup k (remove k m) ≡ none
  unfolding lookup remove
  lookup-remove_self k [] d = refl
  lookup-remove_self k ((i, v) ∷ m) (a, d) = ground (arith, lookup-remove_self k m d, eq_iff i k)

  pub remove_absent : (k : K) (m : List (K × V)) → lookup k m ≡ none → remove k m ≡ m
  unfolding lookup remove
  remove_absent k [] h = refl
  remove_absent k ((i, v) ∷ m) h = ground (arith, remove_absent k m)

  pub lookup-remove_none :
      (k j : K) (m : List (K × V)) → lookup j m ≡ none → lookup j (remove k m) ≡ none
  unfolding lookup remove
  lookup-remove_none k j [] h = refl
  lookup-remove_none k j ((i, v) ∷ m) h = ground (arith, lookup-remove_none k j m)

  pub remove-Distinct : (k : K) (m : List (K × V)) → Distinct m → Distinct (remove k m)
  unfolding remove
  remove-Distinct k [] d = d
  remove-Distinct k ((i, v) ∷ m) (a, d) = elim (Bool-cases (i == k)) [
    | inl h ↦ rw h d
    | inr h ↦ rw h (lookup-remove_none k i m a, remove-Distinct k m d)
  ]

  pub length-remove :
      (k : K) (m : List (K × V)) → is_some (lookup k m) ≡ true → length (remove k m) + 1 ≡ length m
  unfolding lookup remove
  length-remove k [] h = cc
  length-remove k ((i, v) ∷ m) h = ground (arith, length-remove k m)

  pub length-modify : (k : K) (f : V → V) (m : List (K × V)) → length (modify k f m) ≡ length m
  unfolding modify
  length-modify k f [] = refl
  length-modify k f ((i, v) ∷ m) = ground (arith, length-modify k f m)

  pub modify-Distinct :
      (k : K) (f : V → V) (m : List (K × V)) → Distinct m → Distinct (modify k f m)
  unfolding modify
  modify-Distinct k f [] d = d
  modify-Distinct k f ((i, v) ∷ m) (a, d) = elim (Bool-cases (i == k)) [
    | inl h ↦ rw h (a, d)
    | inr h ↦
        rw h
          (lookup-modify k i f m ∙ ground (arith, eq_iff k i, eq_iff i k), modify-Distinct k f m d)
  ]

  swap-Distinct : (a b : K × V) (l : List (K × V)) → Distinct (a ∷ b ∷ l) → Distinct (b ∷ a ∷ l)
  unfolding lookup
  swap-Distinct a b l (da, (db, d)) =
      (ground (arith, eq_iff b.0 a.0, eq_iff a.0 b.0), (ground arith, d))

  swap-lookup :
      (a b : K × V) (l : List (K × V)) (k : K)
      → Distinct (a ∷ b ∷ l)
      → lookup k (b ∷ a ∷ l) ≡ lookup k (a ∷ b ∷ l)
  unfolding lookup
  swap-lookup a b l k (da, _) =
      ground (arith, eq_iff b.0 a.0, eq_iff a.0 b.0, eq_iff a.0 k, eq_iff b.0 k)

  -- A rearranged table answers as before.
  perm-lookup :
      {l m : List (K × V)}
      → Permᴰ l m
      → Distinct m
      → Distinct l × ((k : K) → lookup k l ≡ lookup k m)
  unfolding lookup
  perm-lookup Permᴰ.nil d = (tt, λ k. refl)
  perm-lookup (Permᴰ.cons {a} {b} {l₁} {l₂} p q) (da, d) =
      let (dl, same) = perm-lookup q d in
      ((ap (λ x. lookup x.0 l₁) p ∙ same b.0 ∙ da, dl), λ k. rw (p, same k))
  perm-lookup (Permᴰ.swap {a} {b} {a'} {b'} {l} p q) d =
      subst₂
        (λ x y. Distinct (x ∷ y ∷ l) × ((k : K) → lookup k (x ∷ y ∷ l) ≡ lookup k (a' ∷ b' ∷ l)))
        (sym p) (sym q) (swap-Distinct a' b' l d, λ k. swap-lookup a' b' l k d)
  perm-lookup (Permᴰ.trans p q) d =
      let (dl, same) = perm-lookup q d in
      let (dk, again) = perm-lookup p dl in (dk, λ k. again k ∙ same k)

  module _ (w : K × V → ℕ) where
    pub total-remove :
        (k : K) (v : V) (m : List (K × V))
        → lookup k m ≡ some v
        → total w m ≡ w (k, v) + total w (remove k m)
    unfolding lookup remove
    total-remove k v [] h = cc
    total-remove k v ((i, u) ∷ m) h = ground (arith, total-remove k v m, eq_iff i k)

    pub total-modify :
        (k : K) (f : V → V) (v : V) (m : List (K × V))
        → lookup k m ≡ some v
        → total w (modify k f m) + w (k, v) ≡ total w m + w (k, f v)
    unfolding lookup modify
    total-modify k f v [] h = cc
    total-modify k f v ((i, u) ∷ m) h = ground (arith, total-modify k f v m, eq_iff i k)

    total-perm : {l m : List (K × V)} → Permᴰ l m → total w l ≡ total w m
    total-perm Permᴰ.nil = refl
    total-perm (Permᴰ.cons {a} {b} p q) = rw p (omega (arith, total-perm q))
    total-perm (Permᴰ.swap {a} {b} {a'} {b'} p q) = rw (p, q) (omega arith)
    total-perm (Permᴰ.trans p q) = omega (arith, total-perm p, total-perm q)

    pub total-insert_fresh :
        (h : HashOrder (K × V)) (k : K) (v : V) (m : List (K × V))
        → lookup k m ≡ none
        → total w (insert h k v m) ≡ w (k, v) + total w m
    unfolding insert
    total-insert_fresh h k v m e = rw e (total-perm (h.order_perm ((k, v) ∷ m)))

    pub total-insert_over :
        (h : HashOrder (K × V)) (k : K) (v u : V) (m : List (K × V))
        → lookup k m ≡ some u
        → total w (insert h k v m) + w (k, u) ≡ total w m + w (k, v)
    unfolding insert
    total-insert_over h k v u m e = rw e (total-modify k (λ _. v) u m e)

  pub insert-Distinct :
      (h : HashOrder (K × V)) (k : K) (v : V) (m : List (K × V))
      → Distinct m
      → Distinct (insert h k v m)
  unfolding insert
  insert-Distinct h k v m d = elim (Option-cases (lookup k m)) [
    | inl e ↦ rw e (perm-lookup (h.order_perm ((k, v) ∷ m)) (e, d)).0
    | inr (u, e) ↦ rw e (modify-Distinct k (λ _. v) m d)
  ]

  pub lookup-insert :
      (h : HashOrder (K × V)) (k j : K) (v : V) (m : List (K × V))
      → Distinct m
      → lookup j (insert h k v m) ≡ (if k == j then some v else lookup j m)
  unfolding insert
  lookup-insert h k j v m d = elim (Option-cases (lookup k m)) [
    | inl e ↦ rw e ((perm-lookup (h.order_perm ((k, v) ∷ m)) (e, d)).1 j ∙ unfold lookup in refl)
    | inr (u, e) ↦ rw e (lookup-modify k j (λ _. v) m ∙ ground (arith, eq_iff k j))
  ]

module _ {ℓ} {A : Type ℓ} where
  length-perm : {l m : List A} → Permᴰ l m → length l ≡ length m
  length-perm Permᴰ.nil = refl
  length-perm (Permᴰ.cons p q) = ap suc (length-perm q)
  length-perm (Permᴰ.swap p q) = refl
  length-perm (Permᴰ.trans p q) = length-perm p ∙ length-perm q

module _ {ℓ} {K V : Type ℓ} ⦃e : Eq K⦄ where
  pub length-insert :
      (h : HashOrder (K × V)) (k : K) (v : V) (m : List (K × V))
      → length (insert h k v m) ≡ (if contains_key k m then length m else suc (length m))
  unfolding insert
  length-insert h k v m =
      ground (arith, length-perm (h.order_perm ((k, v) ∷ m)), length-modify k (λ _. v) m)
