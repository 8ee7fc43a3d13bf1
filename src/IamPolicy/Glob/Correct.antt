-- ===== src/IamPolicy/Glob/Correct.antt =====
-- pkg/iampolicy/match.go: `matchGlob` against the elements of the pattern.
use bluebottle.Prelude.{
  ℕ, zero, suc, ◌+◌, ◌*◌, ◌≤◌, ◌<◌, ◌≡◌, refl, sym, ap, ◌∙◌, ◌↔◌, Bool, true, false, ◌&&◌, ◌||◌,
  not, some, none, [], ◌∷◌, arith, Bytes, ◌==◌, if◌then◌else◌, length, drop, inl, inr, Bool-cases,
  &&_iff, length-drop,
}
use bluebottle.IamPolicy.Glob.{Token, token, asterisk, Back, scan, match_glob}
use bluebottle.IamPolicy.Glob.Element.{
  Element, Elements, star, one, lit, elements, accepts, glob, glob_iff, Matches,
}
use bluebottle.IamPolicy.Glob.Scan.{
  token_element, elements-token, token_meta_width, token_width, glob-two_stars, IsPlain, glob-plain,
  glob-plain_skip, glob-star_later, only_stars-glob,
}

-- What is left to try at the saved star: it takes one more byte, or several.
retry_value : Bool → Back → Bool
retry_value escapes none = false
retry_value escapes (some (q, w)) = glob (star ∷ elements escapes (drop 1 q)) (drop 1 w)

-- The bounds on a saved star: its pattern is shorter than `k`, its value at most `m` long.
abbrev Saved : ℕ → ℕ → Bytes → Back → Type 0
Saved k m v none = Unit
Saved k m v (some (q, w)) = (length v ≤ length w) × (length w ≤ m) × (length (drop 1 q) < k)

-- `k` is above the length of every pattern in play, `m` bounds the value that is left to retry.
record Inv (k m fuel : ℕ) (escapes : Bool) (p v : Bytes) (back : Back) : Type 0 where
  enough : m * k + length p < fuel
  pattern_bound : length p < k
  value_bound : length v ≤ m
  -- Where the saved star could go on, a star before `p` could too.
  covered : retry_value escapes back ≡ true → glob (star ∷ elements escapes p) v ≡ true
  saved : Saved k m v back

-- The result of the loop: what is left of the pattern matches, or a later retry does.
abbrev Answers : ℕ → Bool → Bytes → Bytes → Back → Type 0
Answers fuel escapes p v back =
    scan fuel p v back escapes ≡ (glob (elements escapes p) v || retry_value escapes back)

absorb : (a b : Bool) → (b ≡ true → a ≡ true) → (a || b) ≡ a
absorb true b h = refl
absorb false true h = sym (h refl)
absorb false false h = refl

Saved-shorter : (k m c : ℕ) (v : Bytes) (back : Back) → Saved k m (c ∷ v) back → Saved k m v back
Saved-shorter k m c v none h = tt
Saved-shorter k m c v (some (q, w)) h = omega arith

token_star : (t : Token) → (t.meta && t.byte == asterisk) ≡ true → token_element t ≡ star
token_star t h = rw h

token-IsPlain : (t : Token) → (t.meta && t.byte == asterisk) ≡ false → IsPlain (token_element t)
token-IsPlain t h = rw h (either t.meta)
  where
    either : (b : Bool) → IsPlain (if b then one else lit t.byte)
    either true = tt
    either false = tt

accepts-token :
    (t : Token) (c : ℕ)
    → (t.meta && t.byte == asterisk) ≡ false
    → accepts (token_element t) c ≡ (t.meta || t.byte == c)
accepts-token t c h = rw h (either t.meta)
  where
    either : (b : Bool) → accepts (if b then one else lit t.byte) c ≡ (b || t.byte == c)
    either true = refl
    either false = refl

nonzero : (n : ℕ) → 1 ≤ n → not (n == 0) ≡ true
nonzero n h = ground arith

module _ (k : ℕ) (escapes : Bool) where
  at_end :
      (m fuel : ℕ) (p : Bytes) (back : Back)
      → Inv k m (suc fuel) escapes p [] back
      → Answers (suc fuel) escapes p [] back
  unfolding scan
  at_end m fuel p back i =
      only_stars-glob _ p escapes (omega arith)
      ∙ sym (
          absorb (glob (elements escapes p) []) (retry_value escapes back)
            (λ r. unfold glob in i.covered r))

  -- A star in the pattern becomes the saved star.
  Inv-star :
      {m fuel c : ℕ} {p p' v : Bytes} {back : Back}
      → p' ≡ drop 1 p
      → length p' < length p
      → Inv k m (suc fuel) escapes p (c ∷ v) back
      → Inv k m fuel escapes p' (c ∷ v) (some (p, c ∷ v))
  unfolding retry_value
  Inv-star {c} {p'} {v} d l i = record {
    enough = omega arith;
    pattern_bound = omega arith;
    value_bound = i.value_bound;
    covered = λ r. glob-star_later (elements escapes p') c v (rw d r);
    saved = (omega arith, i.value_bound, rw (← d) (omega arith));
  }

  glob-star_step :
      (es : Elements) (s : Bytes) → (glob es s || glob (star ∷ es) (drop 1 s)) ≡ glob (star ∷ es) s
  unfolding glob
  glob-star_step es [] = ground arith
  glob-star_step es (c ∷ s) = refl

  -- Its later attempts are what the star itself matches.
  star_value :
      (c : ℕ) (p p' v : Bytes) (back : Back)
      → elements escapes p ≡ star ∷ elements escapes p'
      → p' ≡ drop 1 p
      → (retry_value escapes back ≡ true → glob (star ∷ elements escapes p) (c ∷ v) ≡ true)
      → (glob (elements escapes p') (c ∷ v) || glob (star ∷ elements escapes (drop 1 p)) v)
        ≡ (glob (elements escapes p) (c ∷ v) || retry_value escapes back)
  star_value c p p' v back e d covered =
      rw (← d) (glob-star_step (elements escapes p') (c ∷ v))
      ∙ ap (λ es. glob es (c ∷ v)) (sym e)
      ∙ sym (
          absorb (glob (elements escapes p) (c ∷ v)) (retry_value escapes back)
            (λ r. rw e (glob-two_stars (elements escapes p') (c ∷ v) (rw e at (covered r)))))

  -- A byte that a plain element takes.
  Inv-onward :
      {m fuel c : ℕ} {p p' v : Bytes} {back : Back} (e : Element)
      → IsPlain e
      → elements escapes p ≡ e ∷ elements escapes p'
      → length p' < length p
      → Inv k m (suc fuel) escapes p (c ∷ v) back
      → Inv k m fuel escapes p' v back
  Inv-onward {m} {c} {p'} {v} {back} e plain eq l i = record {
    enough = omega arith;
    pattern_bound = omega arith;
    value_bound = omega arith;
    covered = λ r. glob-plain_skip e (elements escapes p') c v plain (rw eq at (i.covered r));
    saved = Saved-shorter k m c v back i.saved;
  }

  glob-star_drop :
      (es : Elements) (s : Bytes) → glob (star ∷ es) (drop 1 s) ≡ true → glob (star ∷ es) s ≡ true
  glob-star_drop es [] h = h
  glob-star_drop es (c ∷ s) h = glob-star_later es c s h

  -- The saved star takes one byte more, which pays for the pattern to be read again.
  Inv-retry :
      {m fuel c x : ℕ} {p v q w : Bytes}
      → Inv k (suc m) (suc fuel) escapes p (c ∷ v) (some (q, x ∷ w))
      → Inv k m fuel escapes (drop 1 q) w (some (q, w))
  unfolding retry_value
  Inv-retry {q} {w} i = record {
    enough = omega arith;
    pattern_bound = i.saved.2;
    value_bound = omega arith;
    covered = glob-star_drop (elements escapes (drop 1 q)) w;
    saved = (omega arith, omega arith, i.saved.2);
  }

  retry : ℕ → Back → Bool
  retry fuel none = false
  retry fuel (some (q, w)) = scan fuel (drop 1 q) (drop 1 w) (some (q, drop 1 w)) escapes

  module _ (fuel : ℕ)
      (rec : (m : ℕ) (p v : Bytes) (back : Back)
        → Inv k m fuel escapes p v back
        → Answers fuel escapes p v back) where
    mismatch :
        (m c : ℕ) (p v : Bytes) (back : Back)
        → Inv k m (suc fuel) escapes p (c ∷ v) back
        → glob (elements escapes p) (c ∷ v) ≡ false
        → retry fuel back ≡ (glob (elements escapes p) (c ∷ v) || retry_value escapes back)
    unfolding retry retry_value
    mismatch m c p v none i h = rw h
    mismatch m c p v (some (q, [])) i h = absurd (omega arith)
    mismatch zero c p v (some (q, x ∷ w)) i h = absurd (omega arith)
    mismatch (suc m) c p v (some (q, x ∷ w)) i h = rw h (
        rec m (drop 1 q) w (some (q, w)) (Inv-retry i)
        ∙ glob-star_step (elements escapes (drop 1 q)) w)

    -- A round at an element that is no star.
    plain_round :
        (m c : ℕ) (p p' v : Bytes) (back : Back) (e : Element)
        → IsPlain e
        → elements escapes p ≡ e ∷ elements escapes p'
        → length p' < length p
        → Inv k m (suc fuel) escapes p (c ∷ v) back
        → (if accepts e c then scan fuel p' v back escapes else retry fuel back)
          ≡ (glob (elements escapes p) (c ∷ v) || retry_value escapes back)
    plain_round m c p p' v back e plain eq l i = elim (Bool-cases (accepts e c)) [
      | inl b ↦ rw b (
          rec m p' v back (Inv-onward e plain eq l i)
          ∙ ap (λ x. x || retry_value escapes back) (sym (value ∙ rw b)))
      | inr b ↦ rw b (mismatch m c p v back i (value ∙ rw b))
    ]
      where
        value : glob (elements escapes p) (c ∷ v) ≡ (accepts e c && glob (elements escapes p') v)
        value = rw eq (glob-plain e (elements escapes p') c v plain)

    round :
        (m c : ℕ) (p v : Bytes) (back : Back)
        → Inv k m (suc fuel) escapes p (c ∷ v) back
        → Answers (suc fuel) escapes p (c ∷ v) back
    unfolding scan retry
    round m c [] v back i = unfold token in mismatch m c [] v back i (unfold elements glob in refl)
    round m c (a ∷ p) v back i =
        let t = token (a ∷ p) escapes in
        let p' = drop t.width (a ∷ p) in
        let wide = token_width a p escapes in
        let shorter : length p' < suc (length p) = omega (arith, length-drop t.width (a ∷ p)) in
        let eq = elements-token escapes a p in
        elim (Bool-cases (t.meta && t.byte == asterisk)) [
          | inl s ↦
              let d : p' ≡ drop 1 (a ∷ p) =
                ap (λ n. drop n (a ∷ p))
                  (token_meta_width (a ∷ p) escapes (((&&_iff _ _).0 s).0)) in
              rw s (
                rec m p' (c ∷ v) (some (a ∷ p, c ∷ v)) (Inv-star d shorter i)
                ∙ unfold retry_value in
                  star_value c (a ∷ p) p' v back
                    (eq ∙ ap (λ e. e ∷ elements escapes p') (token_star t s)) d i.covered)
          | inr s ↦
              rw (s, nonzero t.width wide, ← accepts-token t c s)
                (plain_round m c (a ∷ p) p' v back (token_element t) (token-IsPlain t s) eq shorter
                  i)
        ]

  loop-Answers :
      (fuel m : ℕ) (p v : Bytes) (back : Back)
      → Inv k m fuel escapes p v back
      → Answers fuel escapes p v back
  loop-Answers zero m p v back i = absurd (omega arith)
  loop-Answers (suc fuel) m p [] back i = at_end m fuel p back i
  loop-Answers (suc fuel) m p (c ∷ v) back i = round fuel (loop-Answers fuel) m c p v back i

||-false : (a : Bool) → (a || false) ≡ a
||-false a = ground arith

-- `matchGlob` answers whether the elements of the pattern match the value; its fuel is enough.
pub match_glob-glob :
    (pattern value : Bytes) (escapes : Bool)
    → match_glob pattern value escapes ≡ glob (elements escapes pattern) value
unfolding match_glob retry_value
match_glob-glob pattern value escapes =
    loop-Answers (length pattern + 1) escapes _ (length value) pattern value none (record {
      enough = omega arith;
      pattern_bound = omega arith;
      value_bound = omega arith;
      covered = λ r. cc;
      saved = tt;
    })
    ∙ ||-false (glob (elements escapes pattern) value)

-- `matchGlob` returns true exactly on the values that the elements of the pattern match, whatever
-- the order of its search, and within the rounds that the model allows it.
pub match_glob_iff :
    (pattern value : Bytes) (escapes : Bool)
    → (match_glob pattern value escapes ≡ true) ↔ Matches (elements escapes pattern) value
match_glob_iff pattern value escapes =
    rw (match_glob-glob pattern value escapes) (glob_iff (elements escapes pattern) value)
