-- ===== src/Prelude/Equality.antt =====
-- Equality of map keys: an interface with its law, and the instances for numbers and byte strings.
use Prim.Native.Nat.{ℕ}
use mathlib.Core.Path.{◌≡◌, refl}
use mathlib.Core.Logic.{◌↔◌}
use mathlib.Core.Bool.{Bool, true, false, ◌&&◌}
use mathlib.Core.List.{[], ◌∷◌}
use native.Mathlib.Omega.{arith}
use pg_resp.Prelude.Tests.{nat_beq, nat_beq_iff}
use pg_resp.Prelude.Lists.{Bytes}

-- A test that holds of equal keys and of no others.
pub record Eq {ℓ} (K : Type ℓ) : Type ℓ where
  pub test : K → K → Bool
  pub sound : (j k : K) → test j k ≡ true → j ≡ k
  pub reflexive : (k : K) → test k k ≡ true

module _ {ℓ} {K : Type ℓ} ⦃keys : Eq K⦄ where
  infix 50 ◌==◌
  abbrev pub ◌==◌ : K → K → Bool
  j == k = keys.test j k

  pub eq_refl : (k : K) → (k == k) ≡ true
  eq_refl = keys.reflexive

  pub eq_iff : (j k : K) → ((j == k) ≡ true) ↔ (j ≡ k)
  eq_iff j k = (keys.sound j k, λ p. rw p (keys.reflexive k))

unfoldable pub bytes_beq : Bytes → Bytes → Bool
bytes_beq [] [] = true
bytes_beq (x ∷ xs) (y ∷ ys) = nat_beq x y && bytes_beq xs ys
bytes_beq _ _ = false

pub bytes_beq→eq : (a b : Bytes) → bytes_beq a b ≡ true → a ≡ b
unfolding bytes_beq
bytes_beq→eq [] [] h = refl
bytes_beq→eq [] (y ∷ ys) h = cc
bytes_beq→eq (x ∷ xs) [] h = cc
bytes_beq→eq (x ∷ xs) (y ∷ ys) h = ground (arith, bytes_beq→eq xs ys)

pub bytes_beq_refl : (a : Bytes) → bytes_beq a a ≡ true
unfolding bytes_beq
bytes_beq_refl [] = refl
bytes_beq_refl (x ∷ xs) = ground (arith, bytes_beq_refl xs)

instance abbrev pub bytes_eq : Eq Bytes
bytes_eq = record { test = bytes_beq; sound = bytes_beq→eq; reflexive = bytes_beq_refl }

instance abbrev pub nat_eq : Eq ℕ
nat_eq = record {
  test = nat_beq;
  sound = λ j k. (nat_beq_iff j k).0;
  reflexive = λ k. (nat_beq_iff k k).1 refl;
}
