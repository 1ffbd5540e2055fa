-- ===== src/Glob/Decides.antt =====
-- That the matcher takes every text that the rules give, with the fuel it has.
use mathlib.Core.Path.{subst}
use pg_resp.Prelude.{
  ℕ, zero, suc, ◌≤◌, ◌<◌, ◌≡◌, ◌↔◌, refl, sym, ap, not, List, ◌∙◌, arith, Bool, true, false, some,
  [], ◌∷◌, Bytes, length, nat_beq, Bool-cases, inl, inr, if_intro,
}
use pg_resp.Glob.Classes.{
  ClassItem, Lists, unclosed, closed, quoted, ranged, single, match_class-Lists, match_class-caret,
}
use pg_resp.Glob.{
  match_class, skip_stars, any_suffix, match_star, match_any, match_literal, match_set,
  match_escape, glob_rounds, glob_match,
}
use pg_resp.Glob.Meaning.{
  Matches, at_end, star_stops, star_takes, question, class, other_class, escaped, literal, plain,
  glob_rounds-Matches,
}

Lists-shorter : {p r : Bytes} {items : List ClassItem} → Lists p items r → length r ≤ length p
Lists-shorter unclosed = omega arith
Lists-shorter (closed e) = omega arith
Lists-shorter (quoted slash l) = omega (arith, Lists-shorter l)
Lists-shorter (ranged not_close not_slash dash not_end l) = omega (arith, Lists-shorter l)
Lists-shorter (single fits l) = omega (arith, Lists-shorter l)

or_later : (b rest : Bool) → rest ≡ true → (elim b [ true ↦ true | false ↦ rest ]) ≡ true
or_later true rest h = refl
or_later false rest h = h

or_here : (b rest : Bool) → b ≡ true → (elim b [ true ↦ true | false ↦ rest ]) ≡ true
or_here true rest h = refl
or_here false rest h = cc

any_suffix-here : (next : Bytes → Bool) (s : Bytes) → next s ≡ true → any_suffix next s ≡ true
unfolding any_suffix
any_suffix-here next [] h = h
any_suffix-here next (d ∷ s) h = or_here (next (d ∷ s)) (any_suffix next s) h

match_star-longer :
    (next : Bytes → Bytes → Bool) (q : Bytes) (d : ℕ) (s : Bytes)
    → match_star next q s ≡ true
    → match_star next q (d ∷ s) ≡ true
unfolding match_star any_suffix
match_star-longer next [] d s h = refl
match_star-longer next (x ∷ q) d s h =
    or_later (next (x ∷ q) (d ∷ s)) (any_suffix (next (x ∷ q)) s) h

module _ (f : ℕ) where
  at_star :
      (c : ℕ) (p s : Bytes)
      → c ≡ b'*'
      → glob_rounds (suc f) (c ∷ p) s ≡ match_star (glob_rounds f) (skip_stars p) s
  unfolding glob_rounds
  at_star c p s e =
      subst (λ b. glob_rounds (suc f) (b ∷ p) s ≡ match_star (glob_rounds f) (skip_stars p) s)
        (sym e) refl

  at_question :
      (c d : ℕ) (p s : Bytes) → c ≡ b'?' → glob_rounds (suc f) (c ∷ p) (d ∷ s) ≡ glob_rounds f p s
  unfolding glob_rounds match_any
  at_question c d p s e =
      subst (λ b. glob_rounds (suc f) (b ∷ p) (d ∷ s) ≡ glob_rounds f p s) (sym e) refl

  at_class :
      (c d : ℕ) (p r s : Bytes)
      → c ≡ b'['
      → match_class p (some d) ≡ (true, r)
      → glob_rounds (suc f) (c ∷ p) (d ∷ s) ≡ glob_rounds f r s
  unfolding glob_rounds match_set
  at_class c d p r s e met =
      subst (λ b. glob_rounds (suc f) (b ∷ p) (d ∷ s) ≡ glob_rounds f r s) (sym e) (rw met refl)

  literal_same :
      (c d : ℕ) (p s : Bytes)
      → c ≡ d
      → match_literal c (glob_rounds f p) (d ∷ s) ≡ glob_rounds f p s
  unfolding match_literal
  literal_same c d p s e = ground (arith, e)

  at_escape :
      (c e d : ℕ) (p s : Bytes)
      → c ≡ 92
      → e ≡ d
      → glob_rounds (suc f) (c ∷ e ∷ p) (d ∷ s) ≡ glob_rounds f p s
  unfolding glob_rounds match_escape
  at_escape c e d p s slash same =
      subst (λ b. glob_rounds (suc f) (b ∷ e ∷ p) (d ∷ s) ≡ glob_rounds f p s) (sym slash)
        (literal_same e d p s same)

  at_plain :
      (c d : ℕ) (p s : Bytes)
      → plain c p ≡ true
      → c ≡ d
      → glob_rounds (suc f) (c ∷ p) (d ∷ s) ≡ glob_rounds f p s
  unfolding glob_rounds match_escape
  at_plain c d [] s h same =
      let P : Bool → Type 0 = λ b. b ≡ glob_rounds f [] s in
      if_intro P (nat_beq c b'*') (λ star. absurd (ground (arith, h)))
        (λ no_star.
          if_intro P (nat_beq c b'?') (λ mark. absurd (ground (arith, h)))
            (λ no_mark.
              if_intro P (nat_beq c b'[') (λ bracket. absurd (ground (arith, h)))
                (λ no_bracket.
                  if_intro P (nat_beq c 92) (λ slash. literal_same 92 d [] s (ground (arith, same)))
                    (λ no_slash. literal_same c d [] s same))))
  at_plain c d (y ∷ p) s h same =
      let P : Bool → Type 0 = λ b. b ≡ glob_rounds f (y ∷ p) s in
      if_intro P (nat_beq c b'*') (λ star. absurd (ground (arith, h)))
        (λ no_star.
          if_intro P (nat_beq c b'?') (λ mark. absurd (ground (arith, h)))
            (λ no_mark.
              if_intro P (nat_beq c b'[') (λ bracket. absurd (ground (arith, h)))
                (λ no_bracket.
                  if_intro P (nat_beq c 92) (λ slash. absurd (ground (arith, h)))
                    (λ no_slash. literal_same c d (y ∷ p) s same))))

star_stops-match_star :
    (f : ℕ) (p s : Bytes)
    → ((g : ℕ) → length p < g → glob_rounds g p s ≡ true)
    → length p < f
    → match_star (glob_rounds f) (skip_stars p) s ≡ true
unfolding skip_stars match_star
star_stops-match_star f [] s ih h = refl
star_stops-match_star f (c ∷ p) s ih h = elim (Bool-cases (nat_beq c b'*')) [
  | inl star ↦ rw star (sym (at_star f c p s (ground arith)) ∙ ih (suc f) (omega arith))
  | inr other ↦ rw other (any_suffix-here (glob_rounds f (c ∷ p)) s (ih f h))
]

Matches-glob_rounds :
    {p s : Bytes} → Matches p s → (f : ℕ) → length p < f → glob_rounds f p s ≡ true
unfolding glob_rounds
Matches-glob_rounds m zero h = absurd (omega arith)
Matches-glob_rounds at_end (suc f) h = refl
Matches-glob_rounds (star_stops {c = c} {p = p} {s = s} e m) (suc f) h =
    at_star f c p s e ∙ star_stops-match_star f p s (λ g k. Matches-glob_rounds m g k) (omega arith)
Matches-glob_rounds (star_takes {c = c} {p = p} d {s = s} e m) (suc f) h =
    at_star f c p (d ∷ s) e
    ∙ match_star-longer (glob_rounds f) (skip_stars p) d s
        (sym (at_star f c p s e) ∙ Matches-glob_rounds m (suc f) h)
Matches-glob_rounds (question {c = c} {p = p} d {s = s} e m) (suc f) h =
    at_question f c d p s e ∙ Matches-glob_rounds m f (omega arith)
Matches-glob_rounds (class {c = c} {p = p} {r = r} d {s = s} e no_caret l met m) (suc f) h =
    at_class f c d p r s e (match_class-Lists d no_caret l ∙ ap (λ b. (b, r)) met)
    ∙ Matches-glob_rounds m f (omega (arith, Lists-shorter l))
Matches-glob_rounds (other_class {c = c} {e = x} {p = p} {r = r} d {s = s} e caret l unmet m)
      (suc f) h =
    at_class f c d (x ∷ p) r s e (match_class-caret d x caret l ∙ ap (λ b. (not b, r)) unmet)
    ∙ Matches-glob_rounds m f (omega (arith, Lists-shorter l))
Matches-glob_rounds (escaped {c = c} {e = e} {p = p} d {s = s} slash same m) (suc f) h =
    at_escape f c e d p s slash same ∙ Matches-glob_rounds m f (omega arith)
Matches-glob_rounds (literal {c = c} {p = p} d {s = s} fits same m) (suc f) h =
    at_plain f c d p s fits same ∙ Matches-glob_rounds m f (omega arith)

-- `glob_match` answers `true` exactly for the texts that the pattern matches by the rules of
-- `Matches`, with what a bracketed class lists given by the rules of `Lists`; its fuel is enough
-- for every pattern.
pub glob_match_iff : (p s : Bytes) → (glob_match p s ≡ true) ↔ Matches p s
unfolding glob_match
glob_match_iff p s = (
  glob_rounds-Matches (suc (length p)) p s,
  λ m. Matches-glob_rounds m (suc (length p)) (omega arith),
)
