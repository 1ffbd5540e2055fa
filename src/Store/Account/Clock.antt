-- ===== src/Store/Account/Clock.antt =====
-- The CLOCK sample of `evict_to_budget`: it clears reference bits and chooses a victim, and
-- changes nothing else.
use pg_resp.Prelude.{
  bytes_eq, All, take, ◌⊎◌, ℕ, zero, suc, ◌≡◌, refl, ap, ◌∙◌, true, false, Option, none, some, List,
  [], ◌∷◌, arith, Bytes, length, ◌==◌, eq_iff, option_map, is_some, inl,
}
use pg_resp.HashMap.{lookup, Distinct, total}
use pg_resp.Store.Types.{Instant, Entry}
use pg_resp.Store.Account.{entry_bytes, sample, or_else}

-- What a client can learn of an entry: its value and its deadline.
abbrev pub view : Entry → Bytes × Option Instant
view e = (e.value, e.expires_at)

abbrev pub peek : Bytes → List (Bytes × Entry) → Option (Bytes × Option Instant)
peek k m = option_map view (lookup k m)

abbrev pub weight : Bytes × Entry → ℕ
weight x = entry_bytes x.0 (length x.1.value)

pub peek-sample :
    (n : ℕ) (protect : Bytes) (fallback : Option Bytes) (m : List (Bytes × Entry)) (j : Bytes)
    → peek j (sample n protect fallback m).0 ≡ peek j m
unfolding sample lookup
peek-sample zero protect fallback m j = refl
peek-sample (suc n) protect fallback [] j = refl
peek-sample (suc n) protect none ((k, e) ∷ m) j =
    ground (arith, peek-sample n protect none m j, peek-sample n protect (some k) m j)
peek-sample (suc n) protect (some f) ((k, e) ∷ m) j =
    ground (arith, peek-sample n protect (some f) m j)

pub lookup-sample_protect :
    (n : ℕ) (protect : Bytes) (fallback : Option Bytes) (m : List (Bytes × Entry))
    → lookup protect (sample n protect fallback m).0 ≡ lookup protect m
unfolding sample lookup
lookup-sample_protect zero protect fallback m = refl
lookup-sample_protect (suc n) protect fallback [] = refl
lookup-sample_protect (suc n) protect none ((k, e) ∷ m) =
    ground
      (arith, lookup-sample_protect n protect none m, lookup-sample_protect n protect (some k) m)
lookup-sample_protect (suc n) protect (some f) ((k, e) ∷ m) =
    ground (arith, lookup-sample_protect n protect (some f) m)

pub total-sample :
    (n : ℕ) (protect : Bytes) (fallback : Option Bytes) (m : List (Bytes × Entry))
    → total weight (sample n protect fallback m).0 ≡ total weight m
unfolding sample
total-sample zero protect fallback m = refl
total-sample (suc n) protect fallback [] = refl
total-sample (suc n) protect none ((k, e) ∷ m) =
    ground (arith, total-sample n protect none m, total-sample n protect (some k) m)
total-sample (suc n) protect (some f) ((k, e) ∷ m) =
    ground (arith, total-sample n protect (some f) m)

pub length-sample :
    (n : ℕ) (protect : Bytes) (fallback : Option Bytes) (m : List (Bytes × Entry))
    → length (sample n protect fallback m).0 ≡ length m
unfolding sample
length-sample zero protect fallback m = refl
length-sample (suc n) protect fallback [] = refl
length-sample (suc n) protect none ((k, e) ∷ m) =
    ground (arith, length-sample n protect none m, length-sample n protect (some k) m)
length-sample (suc n) protect (some f) ((k, e) ∷ m) =
    ground (arith, length-sample n protect (some f) m)

pub peek-none : (k : Bytes) (m : List (Bytes × Entry)) → peek k m ≡ none → lookup k m ≡ none
peek-none k m h = ground arith

lookup-sample_none :
    (n : ℕ) (protect : Bytes) (fallback : Option Bytes) (m : List (Bytes × Entry)) (j : Bytes)
    → lookup j m ≡ none
    → lookup j (sample n protect fallback m).0 ≡ none
lookup-sample_none n protect fallback m j h =
    peek-none j (sample n protect fallback m).0
      (peek-sample n protect fallback m j ∙ ap (option_map view) h)

pub sample-Distinct :
    (n : ℕ) (protect : Bytes) (fallback : Option Bytes) (m : List (Bytes × Entry))
    → Distinct m
    → Distinct (sample n protect fallback m).0
unfolding sample
sample-Distinct zero protect fallback m d = d
sample-Distinct (suc n) protect fallback [] d = d
sample-Distinct (suc n) protect none ((k, e) ∷ m) (a, d) = ground (
  arith,
  sample-Distinct n protect none m d,
  sample-Distinct n protect (some k) m d,
  lookup-sample_none n protect none m k,
  lookup-sample_none n protect (some k) m k,
)
sample-Distinct (suc n) protect (some f) ((k, e) ∷ m) (a, d) =
    ground
      (arith, sample-Distinct n protect (some f) m d, lookup-sample_none n protect (some f) m k)

-- A victim is an entry of the table, and never the protected key.
abbrev pub IsVictim : Bytes → List (Bytes × Entry) → Bytes → Type 0
IsVictim protect m k = ((protect == k) ≡ false) × (is_some (lookup k m) ≡ true)

IsVictim-cons :
    (protect k j : Bytes) (e : Entry) (m : List (Bytes × Entry))
    → IsVictim protect m j
    → IsVictim protect ((k, e) ∷ m) j
unfolding lookup
IsVictim-cons protect k j e m (other, present) = (other, ground arith)

IsVictim-head :
    (protect k : Bytes) (e : Entry) (m : List (Bytes × Entry))
    → (k == protect) ≡ false
    → IsVictim protect ((k, e) ∷ m) k
unfolding lookup
IsVictim-head protect k e m h =
    (ground (arith, eq_iff k protect, eq_iff protect k), ground (arith, eq_iff k k))

bit-cons :
    (k j : Bytes) (e : Entry) (m : List (Bytes × Entry))
    → lookup k m ≡ none
    → option_map (λ (x : Entry). x.clock_bit) (lookup j m) ≡ some false
    → option_map (λ (x : Entry). x.clock_bit) (lookup j ((k, e) ∷ m)) ≡ some false
unfolding lookup
bit-cons k j e m a h = ground (arith, eq_iff k j)

-- The chosen entry is a victim whose reference bit was clear.
pub sample-evict :
    (n : ℕ) (protect : Bytes) (fallback : Option Bytes) (m : List (Bytes × Entry)) (j : Bytes)
    → Distinct m
    → (sample n protect fallback m).1 ≡ some j
    → IsVictim protect m j × (option_map (λ (e : Entry). e.clock_bit) (lookup j m) ≡ some false)
unfolding sample lookup
sample-evict zero protect fallback m j d h = cc
sample-evict (suc n) protect fallback [] j d h = cc
sample-evict (suc n) protect none ((k, e) ∷ m) j (a, d) h = ground (
  arith,
  sample-evict n protect none m j d,
  sample-evict n protect (some k) m j d,
  IsVictim-cons protect k j e m,
  bit-cons k j e m a,
  eq_iff k j,
  eq_iff k protect,
  eq_iff protect k,
)
sample-evict (suc n) protect (some f) ((k, e) ∷ m) j (a, d) h = ground (
  arith,
  sample-evict n protect (some f) m j d,
  IsVictim-cons protect k j e m,
  bit-cons k j e m a,
  eq_iff k j,
  eq_iff k protect,
  eq_iff protect k,
)

sample-fallback :
    (n : ℕ) (protect : Bytes) (fallback : Option Bytes) (m : List (Bytes × Entry)) (j : Bytes)
    → (sample n protect fallback m).2 ≡ some j
    → (fallback ≡ some j) ⊎ IsVictim protect m j
unfolding sample
sample-fallback zero protect fallback m j h = inl h
sample-fallback (suc n) protect fallback [] j h = inl h
sample-fallback (suc n) protect none ((k, e) ∷ m) j h = ground (
  arith,
  sample-fallback n protect none m j,
  sample-fallback n protect (some k) m j,
  IsVictim-cons protect k j e m,
  IsVictim-head protect k e m,
)
sample-fallback (suc n) protect (some f) ((k, e) ∷ m) j h =
    ground (arith, sample-fallback n protect (some f) m j, IsVictim-cons protect k j e m)

-- A second chance is spent only where every sampled entry was referenced.
pub sample-referenced :
    (n : ℕ) (protect : Bytes) (fallback : Option Bytes) (m : List (Bytes × Entry))
    → (sample n protect fallback m).1 ≡ none
    → All (λ x. (x.0 == protect) ≡ false → x.1.clock_bit ≡ true) (take n m)
unfolding sample
sample-referenced zero protect fallback m h = tt
sample-referenced (suc n) protect fallback [] h = tt
sample-referenced (suc n) protect none ((k, e) ∷ m) h = (
  λ other. ground arith,
  ground (arith, sample-referenced n protect none m, sample-referenced n protect (some k) m),
)
sample-referenced (suc n) protect (some f) ((k, e) ∷ m) h =
    (λ other. ground arith, ground (arith, sample-referenced n protect (some f) m))

sample-fallback_stays :
    (n : ℕ) (protect f : Bytes) (m : List (Bytes × Entry))
    → (sample n protect (some f) m).2 ≡ some f
unfolding sample
sample-fallback_stays zero protect f m = refl
sample-fallback_stays (suc n) protect f [] = refl
sample-fallback_stays (suc n) protect f ((k, e) ∷ m) =
    ground (arith, sample-fallback_stays n protect f m)

-- With two entries or more to look at, some victim is found unless only the protected key is left.
pub sample-none :
    (n : ℕ) (protect : Bytes) (m : List (Bytes × Entry)) (j : Bytes)
    → Distinct m
    → or_else (sample (suc (suc n)) protect none m).1 (sample (suc (suc n)) protect none m).2 ≡ none
    → (protect == j) ≡ false
    → lookup j m ≡ none
unfolding sample lookup
sample-none n protect [] j d h other = refl
sample-none n protect ((k, e) ∷ []) j d h other =
    ground (arith, eq_iff k j, eq_iff k protect, eq_iff protect j)
sample-none n protect ((k, e) ∷ (i, u) ∷ m) j (a, d) h other = absurd (
    ground (
      arith,
      eq_iff k protect,
      eq_iff i protect,
      eq_iff i k,
      sample-fallback_stays (suc n) protect k ((i, u) ∷ m),
      sample-fallback_stays n protect i m,
    ))

-- What `evict.or(fallback)` chooses is a victim.
pub sample-IsVictim :
    (n : ℕ) (protect : Bytes) (m : List (Bytes × Entry)) (j : Bytes)
    → Distinct m
    → or_else (sample n protect none m).1 (sample n protect none m).2 ≡ some j
    → IsVictim protect m j
sample-IsVictim n protect m j d h =
    ground (arith, sample-evict n protect none m j d, sample-fallback n protect none m j)
