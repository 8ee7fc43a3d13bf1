-- ===== src/IamPolicy/Glob/Element.antt =====
-- What a pattern of pkg/iampolicy/match.go means, with no search order in it: the elements that it
-- spells, and the values that a list of elements matches.
use bluebottle.Prelude.{
  ℕ, ◌≡◌, refl, ◌↔◌, inl, inr, Bool, true, false, ◌&&◌, ◌||◌, List, [], ◌∷◌, arith, Bytes, ◌==◌,
  if◌then◌else◌, ◌∙◌, ||_iff,
}

-- `*`, `?`, and a byte that stands for itself.
pub data Element : Type 0 where
  star : Element
  one : Element
  lit : ℕ → Element

abbrev pub Elements : Type 0
Elements = List Element

abbrev pub element : ℕ → Element
element c = if c == b'*' then star else if c == b'?' then one else lit c

-- The elements of a pattern. With `escapes`, a backslash makes the byte behind it literal; a
-- backslash at the end stands for itself.
unfoldable pub elements : Bool → Bytes → Elements
elements escapes [] = []
elements escapes (c ∷ []) = element c ∷ []
elements escapes (c ∷ d ∷ p) =
    let escaped = elements escapes p in
    let plain = elements escapes (d ∷ p) in
    if escapes && c == b'\\' then lit d ∷ escaped else element c ∷ plain

abbrev pub accepts : Element → ℕ → Bool
accepts star c = false
accepts one c = true
accepts (lit x) c = x == c

-- The values that a list of elements matches: a star matches any run of bytes.
pub data Matches : Elements → Bytes → Type 0 where
  done : Matches [] []
  skip : {es : Elements} {s : Bytes} → Matches es s → Matches (star ∷ es) s
  extend : {c : ℕ} {es : Elements} {s : Bytes} → Matches (star ∷ es) s → Matches (star ∷ es) (c ∷ s)
  byte :
      {e : Element} {c : ℕ} {es : Elements} {s : Bytes}
      → accepts e c ≡ true
      → Matches es s
      → Matches (e ∷ es) (c ∷ s)

-- The same as a test, which tries every run for every star.
unfoldable pub glob : Elements → Bytes → Bool
glob [] [] = true
glob [] (c ∷ s) = false
glob (star ∷ es) [] = glob es []
glob (star ∷ es) (c ∷ s) = glob es (c ∷ s) || glob (star ∷ es) s
glob (one ∷ es) [] = false
glob (one ∷ es) (c ∷ s) = glob es s
glob (lit x ∷ es) [] = false
glob (lit x ∷ es) (c ∷ s) = (x == c) && glob es s

glob→Matches : (es : Elements) (s : Bytes) → glob es s ≡ true → Matches es s
unfolding glob
glob→Matches [] [] h = done
glob→Matches [] (c ∷ s) h = cc
glob→Matches (star ∷ es) [] h = skip (glob→Matches es [] h)
glob→Matches (star ∷ es) (c ∷ s) h = elim ((||_iff (glob es (c ∷ s)) (glob (star ∷ es) s)).0 h) [
  | inl now ↦ skip (glob→Matches es (c ∷ s) now)
  | inr later ↦ extend (glob→Matches (star ∷ es) s later)
]
glob→Matches (one ∷ es) [] h = cc
glob→Matches (one ∷ es) (c ∷ s) h = byte refl (glob→Matches es s h)
glob→Matches (lit x ∷ es) [] h = cc
glob→Matches (lit x ∷ es) (c ∷ s) h = byte (ground arith) (glob→Matches es s (ground arith))

pub glob-star : (es : Elements) (s : Bytes) → glob es s ≡ true → glob (star ∷ es) s ≡ true
unfolding glob
glob-star es [] h = h
glob-star es (c ∷ s) h = rw h

pub glob-accepts :
    (e : Element) (c : ℕ) (es : Elements) (s : Bytes)
    → accepts e c ≡ true
    → glob (e ∷ es) (c ∷ s) ≡ glob es s
unfolding glob
glob-accepts star c es s h = cc
glob-accepts one c es s h = refl
glob-accepts (lit x) c es s h = rw h

Matches→glob : {es : Elements} {s : Bytes} → Matches es s → glob es s ≡ true
Matches→glob done = unfold glob in refl
Matches→glob (skip {es} {s} m) = glob-star es s (Matches→glob m)
Matches→glob (extend {c} {es} {s} m) = after (Matches→glob m)
  where
    after : glob (star ∷ es) s ≡ true → glob (star ∷ es) (c ∷ s) ≡ true
    after h = unfold glob in (||_iff (glob es (c ∷ s)) (glob (star ∷ es) s)).1 (inr h)
Matches→glob (byte {e} {c} {es} {s} h m) = glob-accepts e c es s h ∙ Matches→glob m

pub glob_iff : (es : Elements) (s : Bytes) → (glob es s ≡ true) ↔ Matches es s
glob_iff es s = (glob→Matches es s, Matches→glob)
