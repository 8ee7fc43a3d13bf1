-- ===== src/Prelude/Bounds.antt =====
-- Tests of a context and a default, `f k d`: in a smaller context with the default false a test is no
-- weaker, and with the default true no stronger, than in a larger context with any default.
use mathlib.Core.Path.{◌≡◌, refl, sym, ◌∙◌}
use mathlib.Core.Bool.{Bool, true, false, not, ◌&&◌}
use mathlib.Core.List.{List}
use native.Mathlib.Omega.{arith}
use bluebottle.Prelude.Tests.{if◌then◌else◌, not_mono, Bool-cases}
use mathlib.Core.Logic.{inl, inr}
use bluebottle.Prelude.Lists.{any, all, any_mono, all_mono}

-- `low` and `high` are the two contexts.
module _ {ℓ} {K : Type ℓ} (low high : K) where
  abbrev pub Bounded : (K → Bool → Bool) → Type 0
  Bounded f =
      (d : Bool) → (f low false ≡ true → f high d ≡ true) × (f high d ≡ true → f low true ≡ true)

  pub Bounded-const : (b : Bool) → Bounded (λ k d. b)
  Bounded-const b d = (λ h. h, λ h. h)

  pub Bounded-default : Bounded (λ k d. d)
  Bounded-default d = (λ h. cc, λ h. refl)

  pub Bounded-not : (f : K → Bool → Bool) → Bounded f → Bounded (λ k d. not (f k (not d)))
  Bounded-not f b d = (
    not_mono (f low true) (f high (not d)) (b (not d)).1,
    not_mono (f high (not d)) (f low false) (b (not d)).0,
  )

  pub Bounded-and :
      (f g : K → Bool → Bool) → Bounded f → Bounded g → Bounded (λ k d. f k d && g k d)
  Bounded-and f g b c d = (
    λ h. both (f low false) (g low false) (f high d) (g high d) (b d).0 (c d).0 h,
    λ h. both (f high d) (g high d) (f low true) (g low true) (b d).1 (c d).1 h,
  )
    where
      both :
          (x y x' y' : Bool)
          → (x ≡ true → x' ≡ true)
          → (y ≡ true → y' ≡ true)
          → (x && y) ≡ true
          → (x' && y') ≡ true
      both x y x' y' p q h = ground arith

  pub Bounded-if :
      (t : Bool) (f g : K → Bool → Bool)
      → Bounded f
      → Bounded g
      → Bounded (λ k d. if t then f k d else g k d)
  Bounded-if true f g b c = b
  Bounded-if false f g b c = c

  pub Bounded-any {κ} :
      {A : Type κ} (f : A → K → Bool → Bool) (xs : List A)
      → ((x : A) → Bounded (f x))
      → Bounded (λ k d. any (λ x. f x k d) xs)
  Bounded-any f xs b d = (
    any_mono (λ x. f x low false) (λ x. f x high d) (λ x. (b x d).0) xs,
    any_mono (λ x. f x high d) (λ x. f x low true) (λ x. (b x d).1) xs,
  )

  pub Bounded-all {κ} :
      {A : Type κ} (f : A → K → Bool → Bool) (xs : List A)
      → ((x : A) → Bounded (f x))
      → Bounded (λ k d. all (λ x. f x k d) xs)
  Bounded-all f xs b d = (
    all_mono (λ x. f x low false) (λ x. f x high d) (λ x. (b x d).0) xs,
    all_mono (λ x. f x high d) (λ x. f x low true) (λ x. (b x d).1) xs,
  )

  pub Bounded-cong :
      (f g : K → Bool → Bool) → ((k : K) (d : Bool) → f k d ≡ g k d) → Bounded g → Bounded f
  Bounded-cong f g e b d = (
    λ h. e high d ∙ (b d).0 (sym (e low false) ∙ h),
    λ h. e low true ∙ (b d).1 (sym (e high d) ∙ h),
  )

  -- A test that the larger context does not change.
  pub Bounded-settled : (g : K → Bool) → g high ≡ g low → Bounded (λ k d. g k)
  Bounded-settled g e d = (λ h. e ∙ h, λ h. sym e ∙ h)

  -- The default where a test passes, which fails in the larger context if it fails in the smaller.
  pub Bounded-guard :
      (u : K → Bool) (f : K → Bool → Bool)
      → (u low ≡ false → u high ≡ false)
      → (u low ≡ false → Bounded f)
      → Bounded (λ k d. if u k then d else f k d)
  Bounded-guard u f e b d = elim (Bool-cases (u low)) [
    | inl h ↦ (rw h (λ k. cc), rw h (λ k. refl))
    | inr h ↦ rw (h, e h) (b h d)
  ]

  -- Only the two contexts matter.
  pub Bounded-at :
      (f g : K → Bool → Bool)
      → ((d : Bool) → f low d ≡ g low d)
      → ((d : Bool) → f high d ≡ g high d)
      → Bounded g
      → Bounded f
  Bounded-at f g l h b d =
      (λ k. h d ∙ (b d).0 (sym (l false) ∙ k), λ k. l true ∙ (b d).1 (sym (h d) ∙ k))
