-- ===== src/IamPolicy/Numbers/Order.antt =====
-- pkg/iampolicy/numbers.go: the order of magnitudes against that of the values.
use native.Mathlib.Nat.{mul-le-mul_left, pow-suc, pow-le-pow_right}
use bluebottle.Prelude.{
  ℕ, zero, suc, ◌+◌, ◌-◌, ◌*◌, ◌^◌, ◌≤◌, ◌<◌, ◌≡◌, refl, sym, ap, ◌∙◌, subst, Bool, true, false,
  not, ◌&&◌, [], ◌∷◌, Bytes, ◌==◌, ltb, leb, length, all, is_empty, arith, if◌then◌else◌,
  Bool-cases, inl, inr,
}
use bluebottle.Prelude.Int.{ℤ, pos, sub_ℕ, pos_part, neg_part, ltb_ℤ, ◌+ℤ◌}
use bluebottle.Strings.Decimal.{is_digit}
use bluebottle.IamPolicy.Comparison.{Comparison, less, same, greater}
use bluebottle.IamPolicy.Numbers.{Number, compare_bytes, magnitude_compare}

abbrev pub compare_ℕ : ℕ → ℕ → Comparison
compare_ℕ m n = if ltb m n then less else if ltb n m then greater else same

-- The value of digits of which the last one has the weight 10 ^ a.
unfoldable pub value : Bytes → ℕ → ℕ
value [] a = 0
value (c ∷ s) a = (c - b'0') * 10 ^ (length s + a) + value s a

-- No digit is behind, or the last one is not a zero.
unfoldable pub trimmed : Bytes → Bool
trimmed [] = true
trimmed (c ∷ s) = trimmed s && not ((c == b'0') && is_empty s)

pub both : (a b : Bool) → (a && b) ≡ true → (a ≡ true) × (b ≡ true)
both a b h = ground arith

pow_positive : (n : ℕ) → 0 < 10 ^ n
pow_positive zero = omega arith
pow_positive (suc n) = omega (arith, pow-suc 10 n, pow_positive n)

value_step : (c d p x y : ℕ) → c < d → x < p → c * p + x < d * p + y
value_step c d p x y h k = grind (arith, mul-le-mul_left p h)

value_bound : (s : Bytes) (a : ℕ) → all is_digit s ≡ true → value s a < 10 ^ (length s + a)
unfolding value
value_bound [] a h = pow_positive (0 + a)
value_bound (c ∷ s) a h =
    let p = 10 ^ (length s + a) in
    let (d, k) = both (is_digit c) (all is_digit s) h in
    let here : c - b'0' < 10 = ground (arith, d) in
    let same : suc (length s) + a ≡ suc (length s + a) = omega arith in
    let top : 10 ^ (suc (length s) + a) ≡ p * 10 =
      ap (λ n. 10 ^ n) same ∙ pow-suc 10 (length s + a) in
    omega (arith, top, value_step (c - b'0') 10 p (value s a) 0 here (value_bound s a k))

pub value_positive :
    (s : Bytes) (a : ℕ)
    → all is_digit s ≡ true
    → trimmed s ≡ true
    → is_empty s ≡ false
    → 0 < value s a
unfolding value trimmed
value_positive [] a h u e = cc
value_positive (c ∷ []) a h u e =
    let here : 1 ≤ c - b'0' = ground (arith, h, u) in
    grind (arith, mul-le-mul_left (10 ^ (0 + a)) here, pow_positive (0 + a))
value_positive (c ∷ d ∷ s) a h u e =
    let (_, k) = both (is_digit c) (all is_digit (d ∷ s)) h in
    let (v, _) = both (trimmed (d ∷ s)) (not ((c == b'0') && false)) u in
    omega (arith, value_positive (d ∷ s) a k v refl)

value-cons :
    (c : ℕ) (s : Bytes) (a : ℕ) → (c - b'0') * 10 ^ (length s + a) + value s a ≡ value (c ∷ s) a
unfolding value
value-cons c s a = refl

compare_digits :
    (c d p x y : ℕ) (rest : Comparison)
    → b'0' ≤ c
    → b'0' ≤ d
    → x < p
    → y < p
    → rest ≡ compare_ℕ x y
    → (if ltb c d then less else if ltb d c then greater else rest)
      ≡ compare_ℕ ((c - b'0') * p + x) ((d - b'0') * p + y)
compare_digits c d p x y rest hc hd hx hy e = elim (Bool-cases (ltb c d)) [
  | inl l ↦
      let w = value_step (c - b'0') (d - b'0') p x y (ground (arith, l)) hx in
      rw (l) (ground (arith, w))
  | inr l ↦ elim (Bool-cases (ltb d c)) [
    | inl g ↦
        let w = value_step (d - b'0') (c - b'0') p y x (ground (arith, g)) hy in
        rw (l, g) (ground (arith, w))
    | inr g ↦
        let same_digit : c ≡ d = ground (arith, l, g) in
        rw (l, g)
          (e
            ∙ shifted ((c - b'0') * p)
            ∙ ap (λ n. compare_ℕ ((c - b'0') * p + x) ((n - b'0') * p + y)) same_digit)
  ]
]
  where
    shifted : (n : ℕ) → compare_ℕ x y ≡ compare_ℕ (n + x) (n + y)
    shifted n = ground arith

-- At equal positions of the leading digit the digits compare as the values do.
compare_bytes-value :
    (s t : Bytes) (a b : ℕ)
    → all is_digit s ≡ true
    → all is_digit t ≡ true
    → trimmed s ≡ true
    → trimmed t ≡ true
    → length s + a ≡ length t + b
    → compare_bytes s t ≡ compare_ℕ (value s a) (value t b)
unfolding compare_bytes
compare_bytes-value [] [] a b h k u v e = unfold value in refl
compare_bytes-value [] (d ∷ t) a b h k u v e =
    let q = value_positive (d ∷ t) b k v refl in
    let z : value [] a ≡ 0 = unfold value in refl in ground (arith, q, z)
compare_bytes-value (c ∷ s) [] a b h k u v e =
    let q = value_positive (c ∷ s) a h u refl in
    let z : value [] b ≡ 0 = unfold value in refl in ground (arith, q, z)
compare_bytes-value (c ∷ s) (d ∷ t) a b h k u v e =
    let (hc, hs) = both (is_digit c) (all is_digit s) h in
    let (kd, kt) = both (is_digit d) (all is_digit t) k in
    let (us, _) = both (trimmed s) (not ((c == b'0') && is_empty s)) (unfold trimmed in u) in
    let (vt, _) = both (trimmed t) (not ((d == b'0') && is_empty t)) (unfold trimmed in v) in
    let q : length s + a ≡ length t + b = omega (arith, e) in
    let y : value t b < 10 ^ (length s + a) =
      subst (λ n. value t b < 10 ^ n) (sym q) (value_bound t b kt) in
    compare_digits c d (10 ^ (length s + a)) (value s a) (value t b) (compare_bytes s t)
      (ground (arith, hc)) (ground (arith, kd)) (value_bound s a hs) y
      (compare_bytes-value s t a b hs kt us vt q)
    ∙ ap (λ y. compare_ℕ ((c - b'0') * 10 ^ (length s + a) + value s a) y) (opened q)
    ∙ ap (λ x. compare_ℕ x (value (d ∷ t) b)) (value-cons c s a)
  where
    opened :
        length s + a ≡ length t + b → (d - b'0') * 10 ^ (length s + a) + value t b ≡ value (d ∷ t) b
    opened q = unfold value in ap (λ n. (d - b'0') * 10 ^ n + value t b) q

-- The digits are digits, and neither the first nor the last of them is a zero.
abbrev pub leads : Bytes → Bool
leads [] = true
leads (c ∷ s) = not (c == b'0')

pub record IsCanonical (n : Number) : Type 0 where
  pub digits : all is_digit n.digits ≡ true
  pub last : trimmed n.digits ≡ true
  pub first : leads n.digits ≡ true

value_lower :
    (c : ℕ) (s : Bytes) (a : ℕ)
    → all is_digit (c ∷ s) ≡ true
    → leads (c ∷ s) ≡ true
    → 10 ^ (length s + a) ≤ value (c ∷ s) a
unfolding value
value_lower c s a h l =
    let (d, _) = both (is_digit c) (all is_digit s) h in
    let here : 1 ≤ c - b'0' = ground (arith, d, l) in
    grind (arith, mul-le-mul_left (10 ^ (length s + a)) here)

-- A longer number is greater.
value_longer :
    (s t : Bytes) (a b : ℕ)
    → all is_digit s ≡ true
    → all is_digit t ≡ true
    → leads t ≡ true
    → is_empty t ≡ false
    → length s + a < length t + b
    → value s a < value t b
value_longer s [] a b h k l e lt = cc
value_longer s (d ∷ t) a b h k l e lt =
    let low = value_lower d t b k l in
    let high = value_bound s a h in
    let up : 10 ^ (length s + a) ≤ 10 ^ (length t + b) =
      pow-le-pow_right {n = 10} (omega arith) (omega (arith, lt)) in
    omega (arith, low, high, up)

ltb_tops : (p q r s : ℕ) → ltb_ℤ (sub_ℕ p q) (sub_ℕ r s) ≡ ltb (p + s) (r + q)
ltb_tops p q r s = elim (Bool-cases (leb q p)) [
  | inl e ↦ elim (Bool-cases (leb s r)) [
    | inl f ↦ rw (e, f) (ground arith)
    | inr f ↦ rw (e, f) (ground arith)
  ]
  | inr e ↦ elim (Bool-cases (leb s r)) [
    | inl f ↦ rw (e, f) (ground arith)
    | inr f ↦ rw (e, f) (ground arith)
  ]
]

pub magnitude_compare-value :
    (n o : Number) (k a b : ℕ)
    → IsCanonical n
    → IsCanonical o
    → is_empty n.digits ≡ false
    → is_empty o.digits ≡ false
    → pos_part n.exp + k ≡ a + neg_part n.exp
    → pos_part o.exp + k ≡ b + neg_part o.exp
    → magnitude_compare n o ≡ compare_ℕ (value n.digits a) (value o.digits b)
unfolding magnitude_compare ◌+ℤ◌
magnitude_compare-value n o k a b cn co en eo hn ho =
    let ln = length n.digits in
    let lo = length o.digits in
    let up = tops n.exp o.exp ln lo a b hn ho in
    let down = tops o.exp n.exp lo ln b a ho hn in
    elim (Bool-cases (ltb (ln + a) (lo + b))) [
      | inl l ↦
          let v =
            value_longer n.digits o.digits a b cn.digits co.digits co.first eo
              (ground (arith, l)) in
          rw (up ∙ l) (ground (arith, v))
      | inr l ↦ elim (Bool-cases (ltb (lo + b) (ln + a))) [
        | inl g ↦
            let v =
              value_longer o.digits n.digits b a co.digits cn.digits cn.first en
                (ground (arith, g)) in
            rw (up ∙ l, down ∙ g) (ground (arith, v))
        | inr g ↦
            rw (up ∙ l, down ∙ g)
              (compare_bytes-value n.digits o.digits a b cn.digits co.digits cn.last co.last
                (ground (arith, l, g)))
      ]
    ]
  where
    tops :
        (e f : ℤ) (x y c d : ℕ)
        → pos_part e + k ≡ c + neg_part e
        → pos_part f + k ≡ d + neg_part f
        → ltb_ℤ (pos x +ℤ e) (pos y +ℤ f) ≡ ltb (x + c) (y + d)
    tops e f x y c d he hf =
        ltb_tops (x + pos_part e) (0 + neg_part e) (y + pos_part f) (0 + neg_part f)
        ∙ ground (arith, he, hf)
