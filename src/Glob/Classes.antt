-- ===== src/Glob/Classes.antt =====
-- What a bracketed class of a pattern lists, as rules, and that `match_class`
-- (crates/pg_resp/src/glob.rs) reads every class by them.
use mathlib.Core.Path.{subst, sym}
use pg_resp.Prelude.{
  ℕ, ◌≡◌, ◌≢◌, refl, ap, ◌∙◌, arith, Bool, true, false, not, ◌&&◌, ◌||◌, some, List, [], ◌∷◌, Bytes,
  leb, nat_beq, Bool-cases, inl, inr,
}
use pg_resp.Glob.{is_empty, in_range, class_loop, match_class}

-- What a class lists: a byte, or the bytes between two ends, whichever of them is the lower.
pub data ClassItem : Type 0 where
  one : ℕ → ClassItem
  span : ℕ → ℕ → ClassItem

abbrev pub covers : ClassItem → ℕ → Bool
covers (one c) d = nat_beq d c
covers (span a b) d = leb a d && leb d b || leb b d && leb d a

abbrev pub among : ℕ → List ClassItem → Bool
among d [] = false
among d (item ∷ items) = covers item d || among d items

-- A dash with an end behind it, which makes a range of the byte in front.
abbrev pub to_end : Bytes → Bool
to_end [] = false
to_end (x ∷ []) = false
to_end (x ∷ y ∷ p) = nat_beq x b'-' && not (nat_beq y b']')

-- A byte of a class that is listed by itself: it does not close the class, begins no range, and is no
-- backslash but the last byte of the pattern.
abbrev pub alone : ℕ → Bytes → Bool
alone c p = not (nat_beq c b']') && ((not (nat_beq c 92) || is_empty p) && not (to_end p))

abbrev pub starts_with_caret : Bytes → Bool
starts_with_caret [] = false
starts_with_caret (c ∷ p) = nat_beq c b'^'

-- `Lists p items rest`: a class whose text, behind the bracket and the caret, is the front of `p`
-- lists `items`, and `rest` is what follows the class. A class that is not closed ends with the pattern.
pub data Lists : Bytes → List ClassItem → Bytes → Type 0 where
  unclosed : Lists [] [] []
  closed : {c : ℕ} {p : Bytes} → c ≡ b']' → Lists (c ∷ p) [] p
  quoted :
      {c e : ℕ} {p r : Bytes} {items : List ClassItem}
      → c ≡ 92
      → Lists p items r
      → Lists (c ∷ e ∷ p) (one e ∷ items) r
  ranged :
      {a x b : ℕ} {p r : Bytes} {items : List ClassItem}
      → a ≢ b']'
      → a ≢ 92
      → x ≡ b'-'
      → b ≢ b']'
      → Lists p items r
      → Lists (a ∷ x ∷ b ∷ p) (span a b ∷ items) r
  single :
      {c : ℕ} {p r : Bytes} {items : List ClassItem}
      → alone c p ≡ true
      → Lists p items r
      → Lists (c ∷ p) (one c ∷ items) r

-- Every class lists something, and it is closed or it ends with the pattern.
pub Lists-total : (p : Bytes) → (items : List ClassItem) × (r : Bytes) × Lists p items r
Lists-total [] = ([], [], unclosed)
Lists-total (c ∷ []) = elim (Bool-cases (nat_beq c b']')) [
  | inl close ↦ ([], [], closed (ground arith))
  | inr open_still ↦ (one c ∷ [], [], single (ground arith) unclosed)
]
Lists-total (c ∷ d ∷ []) =
    let (items, r, l) = Lists-total (d ∷ []) in
    elim (Bool-cases (nat_beq c b']')) [
      | inl close ↦ ([], d ∷ [], closed (ground arith))
      | inr open_still ↦ elim (Bool-cases (nat_beq c 92)) [
        | inl slash ↦ (one d ∷ [], [], quoted (ground arith) unclosed)
        | inr byte ↦ (one c ∷ items, r, single (ground arith) l)
      ]
    ]
Lists-total (c ∷ d ∷ e ∷ p) =
    let (items, r, l) = Lists-total (d ∷ e ∷ p) in
    let (items', r', l') = Lists-total (e ∷ p) in
    let (items'', r'', l'') = Lists-total p in
    elim (Bool-cases (nat_beq c b']')) [
      | inl close ↦ ([], d ∷ e ∷ p, closed (ground arith))
      | inr open_still ↦ elim (Bool-cases (nat_beq c 92)) [
        | inl slash ↦ (one d ∷ items', r', quoted (ground arith) l')
        | inr byte ↦ elim (Bool-cases (nat_beq d b'-' && not (nat_beq e b']'))) [
          | inl range ↦ (
            span c e ∷ items'',
            r'',
            ranged (ground arith) (ground arith) (ground arith) (ground arith) l'',
          )
          | inr by_itself ↦ (one c ∷ items, r, single (ground arith) l)
        ]
      ]
    ]

-- What one round of the loop does, by the rule for what stands in front.
module _ (d : ℕ) (met : Bool) where
  loop-closed : (c : ℕ) (p : Bytes) → c ≡ b']' → class_loop (some d) (c ∷ p) met ≡ (met, p)
  unfolding class_loop
  loop-closed c [] e = subst (λ x. class_loop (some d) (x ∷ []) met ≡ (met, [])) (sym e) refl
  loop-closed c (y ∷ []) e =
      subst (λ x. class_loop (some d) (x ∷ y ∷ []) met ≡ (met, y ∷ [])) (sym e) refl
  loop-closed c (y ∷ z ∷ p) e =
      subst (λ x. class_loop (some d) (x ∷ y ∷ z ∷ p) met ≡ (met, y ∷ z ∷ p)) (sym e) refl

  loop-quoted :
      (c e : ℕ) (p : Bytes)
      → c ≡ 92
      → class_loop (some d) (c ∷ e ∷ p) met ≡ class_loop (some d) p (met || nat_beq d e)
  unfolding class_loop
  loop-quoted c e [] h =
      subst
        (λ x. class_loop (some d) (x ∷ e ∷ []) met ≡ class_loop (some d) [] (met || nat_beq d e))
        (sym h) refl
  loop-quoted c e (y ∷ p) h =
      subst
        (λ x.
          class_loop (some d) (x ∷ e ∷ y ∷ p) met
          ≡ class_loop (some d) (y ∷ p) (met || nat_beq d e))
        (sym h) refl

  loop-ranged :
      (a x b : ℕ) (p : Bytes)
      → nat_beq a b']' ≡ false
      → nat_beq a 92 ≡ false
      → (nat_beq x b'-' && not (nat_beq b b']')) ≡ true
      → class_loop (some d) (a ∷ x ∷ b ∷ p) met
        ≡ class_loop (some d) p (met || in_range (some d) a b)
  unfolding class_loop
  loop-ranged a x b p not_close not_slash range = rw (not_close, not_slash, range) refl

  loop-single :
      (c : ℕ) (p : Bytes)
      → alone c p ≡ true
      → class_loop (some d) (c ∷ p) met ≡ class_loop (some d) p (met || nat_beq d c)
  unfolding class_loop
  loop-single c [] h =
      let not_close : nat_beq c b']' ≡ false = ground (arith, h) in rw not_close refl
  loop-single c (y ∷ []) h =
      let not_close : nat_beq c b']' ≡ false = ground (arith, h) in
      let not_slash : nat_beq c 92 ≡ false = ground (arith, h) in rw (not_close, not_slash) refl
  loop-single c (y ∷ z ∷ p) h =
      let not_close : nat_beq c b']' ≡ false = ground (arith, h) in
      let not_slash : nat_beq c 92 ≡ false = ground (arith, h) in
      let no_range : (nat_beq y b'-' && not (nat_beq z b']')) ≡ false = ground (arith, h) in
      rw (not_close, not_slash, no_range) refl

or_assoc : (a b c : Bool) → ((a || b) || c) ≡ (a || (b || c))
or_assoc true b c = refl
or_assoc false b c = refl

or_false : (a : Bool) → a ≡ (a || false)
or_false true = refl
or_false false = refl

in_range-covers : (d a b : ℕ) → in_range (some d) a b ≡ covers (span a b) d
in_range-covers d a b = ground arith

-- The loop of `match_class` finds whether the byte is listed, and stops behind the class.
pub class_loop-Lists :
    (d : ℕ) {p r : Bytes} {items : List ClassItem}
    → Lists p items r
    → (met : Bool) → class_loop (some d) p met ≡ (met || among d items, r)
unfolding class_loop
class_loop-Lists d unclosed met = ap (λ m. (m, [])) (or_false met)
class_loop-Lists d (closed {c = c} {p = p} e) met =
    loop-closed d met c p e ∙ ap (λ m. (m, p)) (or_false met)
class_loop-Lists d (quoted {c = c} {e = e} {p = p} {r = r} {items = items} slash l) met =
    loop-quoted d met c e p slash
    ∙ class_loop-Lists d l (met || nat_beq d e)
    ∙ ap (λ m. (m, r)) (or_assoc met (nat_beq d e) (among d items))
class_loop-Lists d
      (ranged {a = a} {x = x} {b = b} {p = p} {r = r} {items = items} not_close not_slash dash
        not_end l)
      met =
    loop-ranged d met a x b p (ground arith) (ground arith) (ground arith)
    ∙ ap (λ m. class_loop (some d) p (met || m)) (in_range-covers d a b)
    ∙ class_loop-Lists d l (met || covers (span a b) d)
    ∙ ap (λ m. (m, r)) (or_assoc met (covers (span a b) d) (among d items))
class_loop-Lists d (single {c = c} {p = p} {r = r} {items = items} fits l) met =
    loop-single d met c p fits
    ∙ class_loop-Lists d l (met || nat_beq d c)
    ∙ ap (λ m. (m, r)) (or_assoc met (nat_beq d c) (among d items))

-- `match_class` on a class with no caret, and on one with a caret.
pub match_class-Lists :
    (d : ℕ) {p r : Bytes} {items : List ClassItem}
    → starts_with_caret p ≡ false
    → Lists p items r
    → match_class p (some d) ≡ (among d items, r)
unfolding match_class
match_class-Lists d {p = []} h l = class_loop-Lists d l false
match_class-Lists d {p = c ∷ p} h l = rw h (class_loop-Lists d l false)

pub match_class-caret :
    (d c : ℕ) {p r : Bytes} {items : List ClassItem}
    → c ≡ b'^'
    → Lists p items r
    → match_class (c ∷ p) (some d) ≡ (not (among d items), r)
unfolding match_class
match_class-caret d c {p = p} {r = r} {items = items} h l =
    subst (λ x. match_class (x ∷ p) (some d) ≡ (not (among d items), r)) (sym h)
      (ap (λ q. (not q.0, q.1)) (class_loop-Lists d l false))
