-- ===== src/IamPolicy/Glob/Scan.antt =====
-- Steps of the loops of `matchGlob` (pkg/iampolicy/match.go) against the elements of the pattern.
use bluebottle.Prelude.{
  ℕ, zero, suc, ◌≤◌, ◌<◌, ◌≡◌, refl, ◌⊎◌, Bool, true, false, ◌&&◌, [], ◌∷◌, arith, Bytes, ◌==◌,
  if◌then◌else◌, length, drop, inl, inr, &&_iff, ||_iff, length-drop,
}
use bluebottle.IamPolicy.Glob.{Token, token, asterisk, only_stars}
use bluebottle.IamPolicy.Glob.Element.{
  Element, Elements, star, one, lit, elements, accepts, glob, glob-star,
}

-- The element that a token stands for.
abbrev pub token_element : Token → Element
token_element t = if t.meta && t.byte == asterisk then star else if t.meta then one else lit t.byte

pub elements-token :
    (escapes : Bool) (c : ℕ) (p : Bytes)
    → elements escapes (c ∷ p)
      ≡ token_element (token (c ∷ p) escapes)
        ∷ elements escapes (drop (token (c ∷ p) escapes).width (c ∷ p))
unfolding elements token
elements-token escapes c [] = ground arith
elements-token escapes c (d ∷ p) = ground arith

-- A metacharacter is one byte wide, any other element one or two.
pub token_meta_width :
    (p : Bytes) (escapes : Bool) → (token p escapes).meta ≡ true → (token p escapes).width ≡ 1
unfolding token
token_meta_width [] escapes h = cc
token_meta_width (c ∷ []) escapes h = refl
token_meta_width (c ∷ d ∷ p) escapes h = ground arith

pub token_width : (c : ℕ) (p : Bytes) (escapes : Bool) → 1 ≤ (token (c ∷ p) escapes).width
unfolding token
token_width c [] escapes = omega arith
token_width c (d ∷ p) escapes = ground arith

pub glob-two_stars :
    (es : Elements) (s : Bytes) → glob (star ∷ star ∷ es) s ≡ true → glob (star ∷ es) s ≡ true
unfolding glob
glob-two_stars es [] h = h
glob-two_stars es (c ∷ s) h = ground (arith, glob-two_stars es s)

pub glob-star_later :
    (es : Elements) (c : ℕ) (s : Bytes)
    → glob (star ∷ es) s ≡ true
    → glob (star ∷ es) (c ∷ s) ≡ true
unfolding glob
glob-star_later es c s h = (||_iff (glob es (c ∷ s)) (glob (star ∷ es) s)).1 (inr h)

glob-star_cases :
    (es : Elements) (c : ℕ) (s : Bytes)
    → glob (star ∷ es) (c ∷ s) ≡ true
    → (glob es (c ∷ s) ≡ true) ⊎ (glob (star ∷ es) s ≡ true)
unfolding glob
glob-star_cases es c s h = (||_iff (glob es (c ∷ s)) (glob (star ∷ es) s)).0 h

-- An element other than a star takes exactly one byte.
abbrev pub IsPlain : Element → Type 0
IsPlain star = ⊥
IsPlain one = Unit
IsPlain (lit c) = Unit

pub glob-plain_end : (e : Element) (es : Elements) → IsPlain e → glob (e ∷ es) [] ≡ false
unfolding glob
glob-plain_end star es h = absurd h
glob-plain_end one es h = refl
glob-plain_end (lit c) es h = refl

pub glob-plain :
    (e : Element) (es : Elements) (c : ℕ) (s : Bytes)
    → IsPlain e
    → glob (e ∷ es) (c ∷ s) ≡ (accepts e c && glob es s)
unfolding glob
glob-plain star es c s h = absurd h
glob-plain one es c s h = refl
glob-plain (lit x) es c s h = refl

-- What a star and a plain element behind it match, that star and what is behind the element match
-- from the next byte on: so a greedy attempt loses nothing.
pub glob-plain_skip :
    (e : Element) (es : Elements) (c : ℕ) (s : Bytes)
    → IsPlain e
    → glob (star ∷ e ∷ es) (c ∷ s) ≡ true
    → glob (star ∷ es) s ≡ true
glob-plain_skip e es c [] p h = elim (glob-star_cases (e ∷ es) c [] h) [
  | inl now ↦ glob-star es [] (((&&_iff _ _).0 (rw (glob-plain e es c [] p) at now)).1)
  | inr later ↦ absurd (end_of later)
]
  where
    end_of : glob (star ∷ e ∷ es) [] ≡ true → ⊥
    end_of later = unfold glob in cc (glob-plain_end e es p)
glob-plain_skip e es c (d ∷ s) p h = elim (glob-star_cases (e ∷ es) c (d ∷ s) h) [
  | inl now ↦ glob-star es (d ∷ s) (((&&_iff _ _).0 (rw (glob-plain e es c (d ∷ s) p) at now)).1)
  | inr later ↦ glob-star_later es d s (glob-plain_skip e es d s p later)
]

pub only_stars-glob :
    (fuel : ℕ) (p : Bytes) (escapes : Bool)
    → length p < fuel
    → only_stars fuel p escapes ≡ glob (elements escapes p) []
unfolding only_stars glob
only_stars-glob zero p escapes h = absurd (omega arith)
only_stars-glob (suc fuel) [] escapes h = unfold token elements in refl
only_stars-glob (suc fuel) (c ∷ p) escapes h = ground (
  arith,
  elements-token escapes c p,
  token_meta_width (c ∷ p) escapes,
  token_width c p escapes,
  length-drop (token (c ∷ p) escapes).width (c ∷ p),
  only_stars-glob fuel (drop (token (c ∷ p) escapes).width (c ∷ p)) escapes,
)
