-- ===== src/Auth/Resolution.antt =====
-- What resolving an ARN against a store establishes.
use bluebottle.Prelude.{
  ◌≡◌, refl, subst, ap, ◌∙◌, Bool, true, false, not, ◌↔◌, Bytes, eqb, eqb_iff, eqb_refl,
  if◌then◌else◌, Result, err, ok,
}
use bluebottle.Auth.{
  ArnError, ArnLookup, ResolveError, parse_iam_arn, resolve_iam_arn, resolve_parsed, check_stored,
}
use bluebottle.Auth.Shape.{IsArnOf, parse_iam_arn_iff}

module _ {E : Type 0} where
  guard_iff :
      (b : Bool) (e : ResolveError E) (x y : Bytes × Bytes)
      → (◌≡◌ {A = Result (ResolveError E) (Bytes × Bytes)} (if not b then err e else ok x) (ok y))
        ↔ ((b ≡ true) × (x ≡ y))
  guard_iff true e x y = (λ h. (refl, cc), λ (b, k). ap ok k)
  guard_iff false e x y = (λ h. cc, λ (b, k). cc)

  check_stored_sound :
      (arn resource : Bytes) (named result : Bytes × Bytes) (r : Result E Bytes)
      → check_stored arn resource named r ≡ ok result
      → (r ≡ ok arn) × (named ≡ result)
  unfolding check_stored
  check_stored_sound arn resource named result (err e) h = cc
  check_stored_sound arn resource named result (ok stored) h =
      let (b, k) = (guard_iff (eqb stored arn) (ResolveError.mismatch resource) named result).0 h in
      (ap ok ((eqb_iff stored arn).0 b), k)

  check_stored_complete :
      (arn resource : Bytes) (named : Bytes × Bytes)
      → check_stored {E = E} arn resource named (ok arn) ≡ ok named
  unfolding check_stored
  check_stored_complete arn resource named = rw (eqb_refl arn)

  -- Resolving an ARN gives an account and a name exactly when the ARN has the shape of one of that
  -- kind with that account and that name, and the store holds this very ARN for them.
  pub resolve_iam_arn_iff :
      (lookup : ArnLookup E) (arn resource account name : Bytes)
      → (resolve_iam_arn arn resource lookup ≡ ok (account, name))
        ↔ (IsArnOf resource arn account name × (lookup account name ≡ ok arn))
  unfolding resolve_iam_arn resolve_parsed
  resolve_iam_arn_iff lookup arn resource account name =
      (sound (parse_iam_arn arn resource) refl, complete)
    where
      sound :
          (r : Result ArnError (Bytes × Bytes))
          → parse_iam_arn arn resource ≡ r
          → resolve_parsed arn resource lookup r ≡ ok (account, name)
          → IsArnOf resource arn account name × (lookup account name ≡ ok arn)
      sound (err e) h k = cc
      sound (ok (a, n)) h k =
          let (l, e) = check_stored_sound arn resource (a, n) (account, name) (lookup a n) k in
          subst (λ p. IsArnOf resource arn p.0 p.1 × (lookup p.0 p.1 ≡ ok arn)) e
            ((parse_iam_arn_iff arn resource a n).0 h, l)

      complete :
          IsArnOf resource arn account name × (lookup account name ≡ ok arn)
          → resolve_parsed arn resource lookup (parse_iam_arn arn resource) ≡ ok (account, name)
      complete (s, l) =
          ap (resolve_parsed arn resource lookup)
            ((parse_iam_arn_iff arn resource account name).1 s)
          ∙ ap (check_stored arn resource (account, name)) l
          ∙ check_stored_complete arn resource (account, name)

  -- No two ARNs of a kind resolve to the same account and name against one store.
  pub resolve_iam_arn-injective :
      (lookup : ArnLookup E) (arn arn' resource : Bytes) (named : Bytes × Bytes)
      → resolve_iam_arn arn resource lookup ≡ ok named
      → resolve_iam_arn arn' resource lookup ≡ ok named
      → arn ≡ arn'
  resolve_iam_arn-injective lookup arn arn' resource (account, name) h h' =
      let (s, l) = (resolve_iam_arn_iff lookup arn resource account name).0 h in
      let (s', l') = (resolve_iam_arn_iff lookup arn' resource account name).0 h' in cc
