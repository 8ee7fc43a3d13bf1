-- ===== src/Strings/Splitting.antt =====
-- `strings.Split` at a byte.
use bluebottle.Prelude.{
  ℕ, ◌≡◌, refl, sym, ap, ◌∙◌, false, List, [], ◌∷◌, ◌++◌, Bytes, ◌==◌, ==_iff, ==_refl, ||_false,
  ◌↔◌, subst, ap₂, if◌then◌else◌, any, is_empty, is_empty, Bool-cases, inl, inr,
}
use bluebottle.Strings.Spaces.{join}
use bluebottle.Strings.Cutting.{Lacks}

abbrev pub onto_first : ℕ → List Bytes → List Bytes
onto_first c [] = (c ∷ []) ∷ []
onto_first c (s ∷ ss) = (c ∷ s) ∷ ss

unfoldable pub split_byte : ℕ → Bytes → List Bytes
split_byte b [] = [] ∷ []
split_byte b (c ∷ s) = let rest = split_byte b s in if c == b then [] ∷ rest else onto_first c rest

join-onto_first :
    (b c : ℕ) (ss : List Bytes) → join (b ∷ []) (onto_first c ss) ≡ c ∷ join (b ∷ []) ss
unfolding join
join-onto_first b c [] = refl
join-onto_first b c (s ∷ []) = refl
join-onto_first b c (s ∷ t ∷ ss) = refl

abbrev pub AllLack : ℕ → List Bytes → Type 0
AllLack b [] = Unit
AllLack b (s ∷ ss) = Lacks b s × AllLack b ss

onto_first-AllLack :
    (b c : ℕ) (ss : List Bytes) → (c == b) ≡ false → AllLack b ss → AllLack b (onto_first c ss)
onto_first-AllLack b c [] e h = (rw (e) refl, tt)
onto_first-AllLack b c (s ∷ ss) e (l, h) = (rw (e) l, h)

pub split_byte-AllLack : (b : ℕ) (s : Bytes) → AllLack b (split_byte b s)
unfolding split_byte
split_byte-AllLack b [] = (refl, tt)
split_byte-AllLack b (c ∷ s) =
    let rest = split_byte-AllLack b s in
    elim (Bool-cases (c == b)) [
      | inl e ↦ rw (e) (refl, rest)
      | inr e ↦ rw (e) (onto_first-AllLack b c (split_byte b s) e rest)
    ]

onto_first_nonempty : (c : ℕ) (ss : List Bytes) → is_empty (onto_first c ss) ≡ false
onto_first_nonempty c [] = refl
onto_first_nonempty c (s ∷ ss) = refl

split_byte_nonempty : (b : ℕ) (s : Bytes) → is_empty (split_byte b s) ≡ false
unfolding split_byte
split_byte_nonempty b [] = refl
split_byte_nonempty b (c ∷ s) = elim (Bool-cases (c == b)) [
  | inl e ↦ rw (e) refl
  | inr e ↦ rw (e) (onto_first_nonempty c (split_byte b s))
]

join-empty :
    (b : ℕ) (s : Bytes) → join (b ∷ []) ([] ∷ split_byte b s) ≡ b ∷ join (b ∷ []) (split_byte b s)
unfolding split_byte join
join-empty b s = first (split_byte b s) (split_byte_nonempty b s)
  where
    first : (ss : List Bytes) → is_empty ss ≡ false → join (b ∷ []) ([] ∷ ss) ≡ b ∷ join (b ∷ []) ss
    first [] h = cc
    first (t ∷ ts) h = refl

-- Joining the parts gives the text back.
pub join-split_byte : (b : ℕ) (s : Bytes) → join (b ∷ []) (split_byte b s) ≡ s
unfolding split_byte join
join-split_byte b [] = refl
join-split_byte b (c ∷ s) =
    let rest = join-split_byte b s in
    elim (Bool-cases (c == b)) [
      | inl e ↦ rw (e) (join-empty b s ∙ ap₂ (λ x y. x ∷ y) (sym ((==_iff c b).0 e)) rest)
      | inr e ↦ rw (e) (join-onto_first b c (split_byte b s) ∙ ap (λ t. c ∷ t) rest)
    ]

split_byte-whole : (b : ℕ) (s : Bytes) → Lacks b s → split_byte b s ≡ s ∷ []
unfolding split_byte
split_byte-whole b [] h = refl
split_byte-whole b (c ∷ s) h =
    let (e, l) = ||_false (c == b) (any (λ d. d == b) s) h in rw (e, split_byte-whole b s l) refl

split_byte-cut :
    (b : ℕ) (s t : Bytes) → Lacks b s → split_byte b (s ++ (b ∷ t)) ≡ s ∷ split_byte b t
unfolding split_byte
split_byte-cut b [] t h = rw (==_refl b) refl
split_byte-cut b (c ∷ s) t h =
    let (e, l) = ||_false (c == b) (any (λ d. d == b) s) h in rw (e, split_byte-cut b s t l) refl

pub split_byte-join :
    (b : ℕ) (s : Bytes) (ss : List Bytes)
    → AllLack b (s ∷ ss)
    → split_byte b (join (b ∷ []) (s ∷ ss)) ≡ s ∷ ss
unfolding join
split_byte-join b s [] (l, h) = split_byte-whole b s l
split_byte-join b s (t ∷ ts) (l, h) =
    split_byte-cut b s (join (b ∷ []) (t ∷ ts)) l ∙ ap (λ x. s ∷ x) (split_byte-join b t ts h)

pub split_byte_iff :
    (b : ℕ) (text s : Bytes) (ss : List Bytes)
    → (split_byte b text ≡ s ∷ ss) ↔ ((text ≡ join (b ∷ []) (s ∷ ss)) × AllLack b (s ∷ ss))
split_byte_iff b text s ss = (
  λ h. (
    sym (join-split_byte b text) ∙ ap (join (b ∷ [])) h,
    subst (AllLack b) h (split_byte-AllLack b text),
  ),
  λ (e, l). ap (split_byte b) e ∙ split_byte-join b s ss l,
)
