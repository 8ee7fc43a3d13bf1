-- ===== src/IamPolicy/Glob/Wildcard.antt =====
-- pkg/iampolicy/match.go: `MatchWildcard`, with its shortcuts, against the elements of the pattern.
use bluebottle.Prelude.{
  ℕ, ◌≡◌, refl, ◌↔◌, true, false, [], ◌∷◌, arith, Bytes, codes, inl, inr, Bool-cases, eqb, eqb_iff,
  map, ◌∙◌, sym, ap,
}
use bluebottle.IamPolicy.Glob.{has_meta, match_wildcard}
use bluebottle.IamPolicy.Glob.Element.{star, lit, element, elements, glob, glob_iff, Matches}
use bluebottle.IamPolicy.Glob.Correct.{match_glob-glob}

pub elements-plain : (c : ℕ) (p : Bytes) → elements false (c ∷ p) ≡ element c ∷ elements false p
unfolding elements
elements-plain c [] = refl
elements-plain c (d ∷ p) = refl

glob-all : (s : Bytes) → glob (star ∷ []) s ≡ true
unfolding glob
glob-all [] = refl
glob-all (c ∷ s) = glob-all s

-- Literal elements match their own text and nothing else.
pub glob-lit : (p v : Bytes) → glob (map lit p) v ≡ eqb p v
unfolding glob
glob-lit [] [] = refl
glob-lit [] (d ∷ v) = refl
glob-lit (c ∷ p) [] = refl
glob-lit (c ∷ p) (d ∷ v) = rw (glob-lit p v)

elements-no_meta : (p : Bytes) → has_meta p ≡ false → elements false p ≡ map lit p
unfolding has_meta
elements-no_meta [] h = unfold elements in refl
elements-no_meta (c ∷ p) h = elements-plain c p ∙ ground (arith, elements-no_meta p)

pub match_wildcard-glob :
    (pattern value : Bytes) → match_wildcard pattern value ≡ glob (elements false pattern) value
unfolding match_wildcard elements
match_wildcard-glob pattern value = elim (Bool-cases (eqb pattern (codes "*"))) [
  | inl e ↦
      rw e
        (sym (ap (λ p. glob (elements false p) value) ((eqb_iff pattern _).0 e) ∙ glob-all value))
  | inr e ↦ rw e (elim (Bool-cases (has_meta pattern)) [
    | inl m ↦ rw m (match_glob-glob pattern value false)
    | inr m ↦ rw (m, elements-no_meta pattern m) (sym (glob-lit pattern value))
  ])
]

-- `MatchWildcard` returns true exactly on the values that the pattern's elements match, no byte
-- escaping another; its two shortcuts change nothing.
pub match_wildcard_iff :
    (pattern value : Bytes)
    → (match_wildcard pattern value ≡ true) ↔ Matches (elements false pattern) value
match_wildcard_iff pattern value =
    rw (match_wildcard-glob pattern value) (glob_iff (elements false pattern) value)
