-- ===== src/Auth/Shape.antt =====
-- The ARNs that `parseIAMARN` accepts, described without its splitting.
use bluebottle.Prelude.{
  ◌≡◌, refl, sym, ap, ◌∙◌, subst, Bool, true, false, not, ◌||◌, ◌↔◌, ◌⊎◌, inl, inr, List, [], ◌∷◌,
  ◌++◌, Bytes, codes, ◌==◌, ==_iff, eqb, eqb_iff, ||_false, any, Bool-cases, Option-cases, is_empty,
  if◌then◌else◌, Result, err, ok,
}
use bluebottle.Strings.{cut_prefix, split_n}
use bluebottle.Strings.Cutting.{
  Lacks, cut_prefix_sound, cut_prefix_complete, split_n_sound, split_n_step,
}
use bluebottle.Auth.{
  ArnError, last_segment, parse_path, parse_resource, parse_parts, parse_iam_arn, has_aws_account,
  is_aws_managed_policy_arn, parse_policy_arn, policy,
}

-- `name` is what follows the last slash of `text`, or all of it.
abbrev pub IsLastSegment : Bytes → Bytes → Type 0
IsLastSegment text name =
    Lacks b'/' name × ((text ≡ name) ⊎ ((path : Bytes) × (text ≡ path ++ b'/' ∷ name)))

-- `arn:aws:iam::ACCOUNT:RESOURCE/PATH_AND_NAME`
abbrev pub arn_text : Bytes → Bytes → Bytes → Bytes
arn_text account resource path_and_name =
    codes "arn"
    ++ b':'
      ∷ (codes "aws"
          ++ b':'
            ∷ (codes "iam"
                ++ b':'
                  ∷ ([] ++ b':' ∷ (account ++ b':' ∷ ((resource ++ codes "/") ++ path_and_name)))))

-- The ARN names this account and this resource of this kind.
pub IsArnOf : Bytes → Bytes → Bytes → Bytes → Type 0
IsArnOf resource arn account name =
    (path_and_name : Bytes) × (arn ≡ arn_text account resource path_and_name)
    × Lacks b':' account
    × (is_empty account ≡ false)
    × IsLastSegment path_and_name name
    × (is_empty name ≡ false)

last_segment-Lacks : (segment s : Bytes) → Lacks b'/' s → last_segment segment s ≡ segment
unfolding last_segment
last_segment-Lacks segment [] h = refl
last_segment-Lacks segment (c ∷ s) h =
    let (e, l) = ||_false (c == b'/') (any (λ d. d == b'/') s) h in
    rw (e, last_segment-Lacks segment s l)

last_segment-path :
    (segment path name : Bytes)
    → Lacks b'/' name
    → last_segment segment (path ++ b'/' ∷ name) ≡ name
unfolding last_segment
last_segment-path segment [] name h = last_segment-Lacks name name h
last_segment-path segment (c ∷ path) name h =
    last_segment-path (if c == b'/' then path ++ b'/' ∷ name else segment) path name h

last_slash :
    (s : Bytes)
    → Lacks b'/' s ⊎ ((path : Bytes) × (name : Bytes) × (s ≡ path ++ b'/' ∷ name) × Lacks b'/' name)
last_slash [] = inl refl
last_slash (c ∷ s) = elim (last_slash s) [
  | inr (path, name, e, l) ↦ inr (c ∷ path, name, ap (λ t. c ∷ t) e, l)
  | inl l ↦ elim (Bool-cases (c == b'/')) [
    | inl e ↦ inr ([], s, ap (λ d. d ∷ s) ((==_iff c b'/').0 e), l)
    | inr e ↦ inl (rw (e, l))
  ]
]

last_segment-IsLastSegment : (s : Bytes) → IsLastSegment s (last_segment s s)
last_segment-IsLastSegment s = elim (last_slash s) [
  | inl l ↦ subst (IsLastSegment s) (sym (last_segment-Lacks s s l)) (l, inl refl)
  | inr (path, name, e, l) ↦
      subst (IsLastSegment s) (sym (ap (last_segment s) e ∙ last_segment-path s path name l))
        (l, inr (path, e))
]

last_segment_unique : (s name : Bytes) → IsLastSegment s name → last_segment s s ≡ name
last_segment_unique s name (l, inl e) = ap (last_segment s) e ∙ last_segment-Lacks s name l ∙ e
last_segment_unique s name (l, inr (path, e)) =
    ap (last_segment s) e ∙ last_segment-path s path name l

split_n-arn :
    (account resource path_and_name : Bytes)
    → Lacks b':' account
    → split_n 6 (arn_text account resource path_and_name)
      ≡ codes "arn"
        ∷ codes "aws"
        ∷ codes "iam"
        ∷ []
        ∷ account
        ∷ ((resource ++ codes "/") ++ path_and_name)
        ∷ []
unfolding split_n
split_n-arn account resource path l =
    let rest = account ++ b':' ∷ ((resource ++ codes "/") ++ path) in
    let service = codes "iam" ++ b':' ∷ ([] ++ b':' ∷ rest) in
    split_n_step 4 (codes "arn") (codes "aws" ++ b':' ∷ service) refl
    ∙ ap (λ t. codes "arn" ∷ t) (split_n_step 3 (codes "aws") service refl)
    ∙ ap (λ t. codes "arn" ∷ codes "aws" ∷ t)
        (split_n_step 2 (codes "iam") ([] ++ b':' ∷ rest) refl)
    ∙ ap (λ t. codes "arn" ∷ codes "aws" ∷ codes "iam" ∷ t) (split_n_step 1 [] rest refl)
    ∙ ap (λ t. codes "arn" ∷ codes "aws" ∷ codes "iam" ∷ [] ∷ t)
        (split_n_step 0 account ((resource ++ codes "/") ++ path) l)

split_n-six :
    (s p0 p1 p2 p3 p4 p5 : Bytes)
    → split_n 6 s ≡ p0 ∷ p1 ∷ p2 ∷ p3 ∷ p4 ∷ p5 ∷ []
    → (s ≡ p0 ++ b':' ∷ (p1 ++ b':' ∷ (p2 ++ b':' ∷ (p3 ++ b':' ∷ (p4 ++ b':' ∷ p5)))))
      × Lacks b':' p4
unfolding split_n
split_n-six s p0 p1 p2 p3 p4 p5 h =
    let (t0, e0, l0, h0) = split_n_sound 4 s p0 p1 _ h in
    let (t1, e1, l1, h1) = split_n_sound 3 t0 p1 p2 _ h0 in
    let (t2, e2, l2, h2) = split_n_sound 2 t1 p2 p3 _ h1 in
    let (t3, e3, l3, h3) = split_n_sound 1 t2 p3 p4 _ h2 in
    let (t4, e4, l4, h4) = split_n_sound 0 t3 p4 p5 _ h3 in (cc, l4)

path_complete :
    (account path_and_name name : Bytes)
    → is_empty account ≡ false
    → IsLastSegment path_and_name name
    → is_empty name ≡ false
    → parse_path account path_and_name ≡ ok (account, name)
unfolding parse_path
path_complete account path name a s n = rw (last_segment_unique path name s, n, a)

path_sound :
    (account path_and_name : Bytes) (named : Bytes × Bytes)
    → parse_path account path_and_name ≡ ok named
    → (named.0 ≡ account)
      × (is_empty account ≡ false)
      × IsLastSegment path_and_name named.1
      × (is_empty named.1 ≡ false)
unfolding parse_path
path_sound account path named h =
    let name = last_segment path path in
    let (e, n, a) = tests (is_empty name) (is_empty account) h in
    (
      ap (λ p. p.0) (sym e),
      a,
      subst (IsLastSegment path) (ap (λ p. p.1) e) (last_segment-IsLastSegment path),
      subst (λ t. is_empty t ≡ false) (ap (λ p. p.1) e) n,
    )
  where
    tests :
        (b d : Bool) {p q : Bytes × Bytes}
        → ◌≡◌ {A = Result ArnError (Bytes × Bytes)}
            (if b then err ArnError.empty_name else if d then err ArnError.empty_account else ok p)
            (ok q)
        → (p ≡ q) × (b ≡ false) × (d ≡ false)
    tests true d e = cc
    tests false true e = cc
    tests false false e = (cc, refl, refl)

parts_sound :
    (resource : Bytes) (parts : List Bytes) (arn : Bytes) (named : Bytes × Bytes)
    → split_n 6 arn ≡ parts
    → parse_parts resource parts ≡ ok named
    → IsArnOf resource arn named.0 named.1
unfolding parse_parts parse_resource IsArnOf
parts_sound resource [] arn named s h = cc
parts_sound resource (p0 ∷ []) arn named s h = cc
parts_sound resource (p0 ∷ p1 ∷ []) arn named s h = cc
parts_sound resource (p0 ∷ p1 ∷ p2 ∷ []) arn named s h = cc
parts_sound resource (p0 ∷ p1 ∷ p2 ∷ p3 ∷ []) arn named s h = cc
parts_sound resource (p0 ∷ p1 ∷ p2 ∷ p3 ∷ p4 ∷ []) arn named s h = cc
parts_sound resource (p0 ∷ p1 ∷ p2 ∷ p3 ∷ p4 ∷ p5 ∷ p6 ∷ ps) arn named s h = cc
parts_sound resource (p0 ∷ p1 ∷ p2 ∷ p3 ∷ p4 ∷ p5 ∷ []) arn named s h =
    let prefix = resource ++ codes "/" in
    let (e0, e1, e2, e3, r) =
      guards (eqb p0 (codes "arn")) (eqb p1 (codes "aws")) (eqb p2 (codes "iam")) (eqb p3 [])
        (parse_resource p4 (cut_prefix p5 prefix)) h in
    let (whole, l) = split_n-six arn p0 p1 p2 p3 p4 p5 s in
    elim (Option-cases (cut_prefix p5 prefix)) [
      | inl e ↦ cc
      | inr (path, e) ↦
          let k = path_sound p4 path named (sym (ap (parse_resource p4) e) ∙ r) in
          let f0 = (eqb_iff p0 (codes "arn")).0 e0 in
          let f1 = (eqb_iff p1 (codes "aws")).0 e1 in
          let f2 = (eqb_iff p2 (codes "iam")).0 e2 in
          let f3 = (eqb_iff p3 []).0 e3 in
          let f5 = cut_prefix_sound p5 prefix e in
          (
            path,
            whole ∙ shape f0 f1 f2 f3 (sym k.0) f5,
            subst (Lacks b':') (sym k.0) l,
            subst (λ t. is_empty t ≡ false) (sym k.0) k.1,
            k.2,
            k.3,
          )
    ]
  where
    guards :
        (a b c d : Bool) (r : Result ArnError (Bytes × Bytes))
        → (if not a || not b || not c || not d then err ArnError.not_iam_arn else r) ≡ ok named
        → (a ≡ true) × (b ≡ true) × (c ≡ true) × (d ≡ true) × (r ≡ ok named)
    guards true true true true r e = (refl, refl, refl, refl, e)
    guards false b c d r e = cc
    guards true false c d r e = cc
    guards true true false d r e = cc
    guards true true true false r e = cc

    shape :
        {a a' b b' c c' d d' e e' f f' : Bytes}
        → a ≡ a'
        → b ≡ b'
        → c ≡ c'
        → d ≡ d'
        → e ≡ e'
        → f ≡ f'
        → a ++ b':' ∷ (b ++ b':' ∷ (c ++ b':' ∷ (d ++ b':' ∷ (e ++ b':' ∷ f))))
          ≡ a' ++ b':' ∷ (b' ++ b':' ∷ (c' ++ b':' ∷ (d' ++ b':' ∷ (e' ++ b':' ∷ f'))))
    shape p q r s t u = cc

parts_complete :
    (arn resource account name : Bytes)
    → IsArnOf resource arn account name
    → parse_parts resource (split_n 6 arn) ≡ ok (account, name)
unfolding IsArnOf parse_parts parse_resource
parts_complete arn resource account name (path, e, l, a, s, n) =
    ap (λ t. parse_parts resource (split_n 6 t)) e
    ∙ ap (parse_parts resource) (split_n-arn account resource path l)
    ∙ ap (parse_resource account) (cut_prefix_complete (resource ++ codes "/") path)
    ∙ path_complete account path name a s n

-- An ARN is accepted for a kind of resource, with an account and a name, exactly when it is
-- `arn:aws:iam::ACCOUNT:RESOURCE/` followed by a text whose part behind the last slash, or all of it
-- without one, is the name; the account has no colon and neither the account nor the name is empty.
pub parse_iam_arn_iff :
    (arn resource account name : Bytes)
    → (parse_iam_arn arn resource ≡ ok (account, name)) ↔ IsArnOf resource arn account name
unfolding parse_iam_arn
parse_iam_arn_iff arn resource account name = (
  parts_sound resource (split_n 6 arn) arn (account, name) refl,
  parts_complete arn resource account name,
)

-- A policy ARN is AWS-managed exactly when it names a policy in the account `aws`.
pub is_aws_managed_policy_arn_iff :
    (arn : Bytes)
    → (is_aws_managed_policy_arn arn ≡ true)
      ↔ ((name : Bytes) × IsArnOf policy arn (codes "aws") name)
unfolding is_aws_managed_policy_arn has_aws_account parse_policy_arn
is_aws_managed_policy_arn_iff arn = (sound (parse_iam_arn arn policy) refl, complete)
  where
    sound :
        (r : Result ArnError (Bytes × Bytes))
        → parse_iam_arn arn policy ≡ r
        → has_aws_account r ≡ true
        → (name : Bytes) × IsArnOf policy arn (codes "aws") name
    sound (err e) h k = cc
    sound (ok (account, name)) h k = (
      name,
      subst (λ t. IsArnOf policy arn t name) ((eqb_iff account (codes "aws")).0 k)
          ((parse_iam_arn_iff arn policy account name).0 h),
    )

    complete :
        (name : Bytes) × IsArnOf policy arn (codes "aws") name
        → has_aws_account (parse_iam_arn arn policy) ≡ true
    complete (name, h) = ap has_aws_account ((parse_iam_arn_iff arn policy (codes "aws") name).1 h)
