-- ===== src/Glob/Meaning.antt =====
-- What a glob pattern means, as rules, and that what the matcher takes is right by them.
use mathlib.Core.Path.{subst}
use pg_resp.Prelude.{
  ℕ, zero, suc, ◌≡◌, refl, ap, ◌∙◌, Bool-cases, inl, inr, List, sym, arith, Bool, true, false, not,
  ◌&&◌, ◌||◌, some, [], ◌∷◌, Bytes, nat_beq, if_intro,
}
use pg_resp.Glob.Classes.{
  ClassItem, among, starts_with_caret, Lists, Lists-total, match_class-Lists, match_class-caret,
}
use pg_resp.Glob.{
  is_empty, match_class, skip_stars, any_suffix, match_star, match_any, match_literal, match_set,
  match_escape, glob_rounds,
}

-- A byte that stands for itself: no star, question mark or bracket, and no backslash but the last.
abbrev pub plain : ℕ → Bytes → Bool
plain c p =
    not (nat_beq c b'*')
    && (not (nat_beq c b'?') && (not (nat_beq c b'[') && (not (nat_beq c 92) || is_empty p)))

-- `Matches p s`: the pattern `p` matches the text `s`. A star takes any bytes, a question mark one, a
-- class one of the bytes that it lists, or behind a caret one that it does not list, an escaped byte
-- itself.
pub data Matches : Bytes → Bytes → Type 0 where
  at_end : Matches [] []
  star_stops : {c : ℕ} {p s : Bytes} → c ≡ b'*' → Matches p s → Matches (c ∷ p) s
  star_takes :
      {c : ℕ} {p : Bytes} (d : ℕ) {s : Bytes}
      → c ≡ b'*'
      → Matches (c ∷ p) s
      → Matches (c ∷ p) (d ∷ s)
  question :
      {c : ℕ} {p : Bytes} (d : ℕ) {s : Bytes} → c ≡ b'?' → Matches p s → Matches (c ∷ p) (d ∷ s)
  class :
      {c : ℕ} {p r : Bytes} {items : List ClassItem} (d : ℕ) {s : Bytes}
      → c ≡ b'['
      → starts_with_caret p ≡ false
      → Lists p items r
      → among d items ≡ true
      → Matches r s
      → Matches (c ∷ p) (d ∷ s)
  other_class :
      {c e : ℕ} {p r : Bytes} {items : List ClassItem} (d : ℕ) {s : Bytes}
      → c ≡ b'['
      → e ≡ b'^'
      → Lists p items r
      → among d items ≡ false
      → Matches r s
      → Matches (c ∷ e ∷ p) (d ∷ s)
  escaped :
      {c e : ℕ} {p : Bytes} (d : ℕ) {s : Bytes}
      → c ≡ 92
      → e ≡ d
      → Matches p s
      → Matches (c ∷ e ∷ p) (d ∷ s)
  literal :
      {c : ℕ} {p : Bytes} (d : ℕ) {s : Bytes}
      → plain c p ≡ true
      → c ≡ d
      → Matches p s
      → Matches (c ∷ p) (d ∷ s)

skip_stars-Matches : (p s : Bytes) → Matches (skip_stars p) s → Matches p s
unfolding skip_stars
skip_stars-Matches [] s = λ m. m
skip_stars-Matches (c ∷ p) s =
    if_intro (λ q. Matches q s → Matches (c ∷ p) s) (nat_beq c b'*')
      (λ h m. star_stops (ground arith) (skip_stars-Matches p s m)) (λ h m. m)

stars-Matches : (c : ℕ) (p s : Bytes) → c ≡ b'*' → Matches p [] → Matches (c ∷ p) s
stars-Matches c p [] e m = star_stops e m
stars-Matches c p (d ∷ s) e m = star_takes d e (stars-Matches c p s e m)

either_true :
    {A : Type 0} (b rest : Bool)
    → (b ≡ true → A)
    → (rest ≡ true → A)
    → (elim b [ true ↦ true | false ↦ rest ]) ≡ true
    → A
either_true true rest f g h = f refl
either_true false rest f g h = g h

class-Matches :
    (c d : ℕ) (p s : Bytes)
    → c ≡ b'['
    → (match_class p (some d)).0 ≡ true
    → Matches (match_class p (some d)).1 s
    → Matches (c ∷ p) (d ∷ s)
class-Matches c d [] s e met m =
    let (items, r, l) = Lists-total [] in
    let reads = match_class-Lists d refl l in
    class d e refl l (sym (ap (λ x. x.0) reads) ∙ met)
      (subst (λ q. Matches q s) (ap (λ x. x.1) reads) m)
class-Matches c d (x ∷ p) s e met m = elim (Bool-cases (nat_beq x b'^')) [
  | inl caret ↦
      let (items, r, l) = Lists-total p in
      let reads = match_class-caret d x (ground arith) l in
      other_class d e (ground (arith, caret)) l (ground (arith, sym (ap (λ y. y.0) reads) ∙ met))
        (subst (λ q. Matches q s) (ap (λ y. y.1) reads) m)
  | inr no_caret ↦
      let (items, r, l) = Lists-total (x ∷ p) in
      let reads = match_class-Lists d no_caret l in
      class d e no_caret l (sym (ap (λ y. y.0) reads) ∙ met)
        (subst (λ q. Matches q s) (ap (λ y. y.1) reads) m)
]

-- What a way to match the rest must keep for the matcher to be right.
abbrev Sound : (Bytes → Bytes → Bool) → Type 0
Sound next = (p s : Bytes) → next p s ≡ true → Matches p s

module _ (next : Bytes → Bytes → Bool) (sound : Sound next) where
  any_suffix-Matches :
      (c : ℕ) (p q s : Bytes)
      → c ≡ b'*'
      → ((u : Bytes) → next q u ≡ true → Matches p u)
      → any_suffix (next q) s ≡ true
      → Matches (c ∷ p) s
  unfolding any_suffix
  any_suffix-Matches c p q [] e back = λ h. star_stops e (back [] h)
  any_suffix-Matches c p q (d ∷ s) e back =
      either_true (next q (d ∷ s)) (any_suffix (next q) s)
        (λ here. star_stops e (back (d ∷ s) here))
        (λ there. star_takes d e (any_suffix-Matches c p q s e back there))

  match_star-Matches :
      (c : ℕ) (p q s : Bytes)
      → c ≡ b'*'
      → skip_stars p ≡ q
      → match_star next q s ≡ true
      → Matches (c ∷ p) s
  unfolding match_star
  match_star-Matches c p [] s e same h =
      stars-Matches c p s e (skip_stars-Matches p [] (subst (λ q. Matches q []) (sym same) at_end))
  match_star-Matches c p (d ∷ q) s e same h =
      any_suffix-Matches c p (d ∷ q) s e
        (λ u m. skip_stars-Matches p u (subst (λ r. Matches r u) (sym same) (sound (d ∷ q) u m))) h

  match_any-Matches :
      (c : ℕ) (p s : Bytes) → c ≡ b'?' → match_any (next p) s ≡ true → Matches (c ∷ p) s
  unfolding match_any
  match_any-Matches c p [] e h = cc
  match_any-Matches c p (d ∷ s) e h = question d e (sound p s h)

  match_set-Matches :
      (c : ℕ) (p s : Bytes) → c ≡ b'[' → match_set next p s ≡ true → Matches (c ∷ p) s
  unfolding match_set
  match_set-Matches c p [] e = λ h. cc
  match_set-Matches c p (d ∷ s) e =
      if_intro (λ b. b ≡ true → Matches (c ∷ p) (d ∷ s)) (match_class p (some d)).0
        (λ met h. class-Matches c d p s e met (sound (match_class p (some d)).1 s h))
        (λ unmet h. cc)

  match_literal-Matches :
      (c : ℕ) (p s : Bytes)
      → plain c p ≡ true
      → match_literal c (next p) s ≡ true
      → Matches (c ∷ p) s
  unfolding match_literal
  match_literal-Matches c p [] e = λ h. cc
  match_literal-Matches c p (d ∷ s) e =
      if_intro (λ b. b ≡ true → Matches (c ∷ p) (d ∷ s)) (nat_beq c d)
        (λ same h. literal d e (ground arith) (sound p s h)) (λ other h. cc)

  match_escape-Matches :
      (c : ℕ) (p s : Bytes) → c ≡ 92 → match_escape next p s ≡ true → Matches (c ∷ p) s
  unfolding match_escape match_literal
  match_escape-Matches c [] s e =
      subst (λ b. match_literal b (next []) s ≡ true → Matches (c ∷ []) s) e
        (match_literal-Matches c [] s (ground (arith, e)))
  match_escape-Matches c (x ∷ p) [] e = λ h. cc
  match_escape-Matches c (x ∷ p) (d ∷ s) e =
      if_intro (λ b. b ≡ true → Matches (c ∷ x ∷ p) (d ∷ s)) (nat_beq x d)
        (λ same h. escaped d e (ground arith) (sound p s h)) (λ other h. cc)

pub glob_rounds-Matches : (f : ℕ) → Sound (glob_rounds f)
unfolding glob_rounds
glob_rounds-Matches zero p s = λ h. cc
glob_rounds-Matches (suc f) [] [] = λ h. at_end
glob_rounds-Matches (suc f) [] (d ∷ s) = λ h. cc
glob_rounds-Matches (suc f) (c ∷ p) s =
    let next = glob_rounds f in
    let sound : Sound (glob_rounds f) = glob_rounds-Matches f in
    if_intro (λ b. b ≡ true → Matches (c ∷ p) s) (nat_beq c b'*')
      (λ star. match_star-Matches next sound c p (skip_stars p) s (ground arith) refl)
      (λ no_star.
        if_intro (λ b. b ≡ true → Matches (c ∷ p) s) (nat_beq c b'?')
          (λ mark. match_any-Matches next sound c p s (ground arith))
          (λ no_mark.
            if_intro (λ b. b ≡ true → Matches (c ∷ p) s) (nat_beq c b'[')
              (λ bracket. match_set-Matches next sound c p s (ground arith))
              (λ no_bracket.
                if_intro (λ b. b ≡ true → Matches (c ∷ p) s) (nat_beq c 92)
                  (λ slash. match_escape-Matches next sound c p s (ground arith))
                  (λ no_slash. match_literal-Matches next sound c p s (ground arith)))))
