-- ===== src/Strings/Cutting.antt =====
-- What the cuts of Strings.antt return, as equations between texts.
use bluebottle.Prelude.{
  ℕ, suc, ◌≡◌, refl, ap, false, inl, inr, Option, none, some, List, [], ◌∷◌, ◌++◌, arith, Bytes,
  ◌==◌, ==_iff, ==_refl, ||_false, any, Bool-cases,
}
use bluebottle.Strings.{cut_byte, cut_prefix, split_n, prepend}

-- No byte of the text is `b`.
abbrev pub Lacks : ℕ → Bytes → Type 0
Lacks b s = any (λ c. c == b) s ≡ false

-- What a cut of `s` at `b` may be.
abbrev pub IsCut : ℕ → Bytes → Option (Bytes × Bytes) → Type 0
IsCut b s none = Lacks b s
IsCut b s (some (x, y)) = (s ≡ x ++ b ∷ y) × Lacks b x

prepend-IsCut :
    (b c : ℕ) (s : Bytes) (o : Option (Bytes × Bytes))
    → (c == b) ≡ false
    → IsCut b s o
    → IsCut b (c ∷ s) (prepend c o)
prepend-IsCut b c s none e h = rw (e, h)
prepend-IsCut b c s (some (x, y)) e (h, l) = (ap (λ t. c ∷ t) h, rw (e, l))

pub cut_byte-IsCut : (b : ℕ) (s : Bytes) → IsCut b s (cut_byte b s)
unfolding cut_byte
cut_byte-IsCut b [] = refl
cut_byte-IsCut b (c ∷ s) =
    let rest = cut_byte-IsCut b s in
    elim (Bool-cases (c == b)) [
      | inl e ↦ rw (e) (ap (λ d. d ∷ s) ((==_iff c b).0 e), refl)
      | inr e ↦ rw (e) (prepend-IsCut b c s (cut_byte b s) e rest)
    ]

pub cut_byte_complete : (b : ℕ) (x y : Bytes) → Lacks b x → cut_byte b (x ++ b ∷ y) ≡ some (x, y)
unfolding cut_byte
cut_byte_complete b [] y h = rw (==_refl b)
cut_byte_complete b (c ∷ x) y h =
    let (e, l) = ||_false (c == b) (any (λ d. d == b) x) h in rw (e, cut_byte_complete b x y l)

pub cut_prefix_sound :
    (s prefix : Bytes) {t : Bytes} → cut_prefix s prefix ≡ some t → s ≡ prefix ++ t
unfolding cut_prefix
cut_prefix_sound s [] {t} h = cc
cut_prefix_sound [] (d ∷ prefix) {t} h = cc
cut_prefix_sound (c ∷ s) (d ∷ prefix) {t} h = ground (arith, cut_prefix_sound s prefix {t = t})

pub cut_prefix_complete : (prefix t : Bytes) → cut_prefix (prefix ++ t) prefix ≡ some t
unfolding cut_prefix
cut_prefix_complete [] t = refl
cut_prefix_complete (c ∷ prefix) t = rw (==_refl c, cut_prefix_complete prefix t)

pub split_n_sound :
    (n : ℕ) (s p q : Bytes) (ps : List Bytes)
    → split_n (suc (suc n)) s ≡ p ∷ q ∷ ps
    → (t : Bytes) × (s ≡ p ++ b':' ∷ t) × Lacks b':' p × (split_n (suc n) t ≡ q ∷ ps)
unfolding split_n
split_n_sound n s p q ps h = split (cut_byte b':' s) (cut_byte-IsCut b':' s) h
  where
    split :
        (o : Option (Bytes × Bytes))
        → IsCut b':' s o
        → elim o as (λ x. List Bytes) [ none ↦ s ∷ [] | some (a, b) ↦ a ∷ split_n (suc n) b ]
          ≡ p ∷ q ∷ ps
        → (t : Bytes) × (s ≡ p ++ b':' ∷ t) × Lacks b':' p × (split_n (suc n) t ≡ q ∷ ps)
    split none l e = cc
    split (some (a, t)) (c, l) e = (t, cc, cc, cc)

pub split_n_step :
    (n : ℕ) (x y : Bytes)
    → Lacks b':' x
    → split_n (suc (suc n)) (x ++ b':' ∷ y) ≡ x ∷ split_n (suc n) y
unfolding split_n
split_n_step n x y h = rw (cut_byte_complete b':' x y h, split_n)
