-- ===== src/IamPolicy/Glob.antt =====
-- pkg/iampolicy/match.go: `token`, `matchGlob` and `MatchWildcard`.
--
-- The indices `p` and `v` of the source are the parts of pattern and value that they leave to read:
-- `p` stands for `pattern[p:]` and `v` for `value[v:]`.
pub mod Element
mod Scan
pub mod Correct
pub mod Wildcard
use bluebottle.Prelude.{
  ℕ, zero, suc, ◌+◌, ◌*◌, Bool, true, false, ◌&&◌, ◌||◌, not, Option, none, some, [], ◌∷◌, Bytes,
  codes, ◌==◌, if◌then◌else◌, length, drop, any, eqb,
}

abbrev pub asterisk : ℕ
asterisk = b'*'

abbrev pub question : ℕ
question = b'?'

abbrev pub backslash : ℕ
backslash = b'\\'

-- What `token` returns: the byte, whether it is a metacharacter, and the width.
pub record Token : Type 0 where
  pub byte : ℕ
  pub meta : Bool
  pub width : ℕ

abbrev pub is_meta : ℕ → Bool
is_meta c = c == asterisk || c == question

unfoldable pub token : Bytes → Bool → Token
token [] escapes = record { byte = 0; meta = false; width = 0 }
token (c ∷ []) escapes = record { byte = c; meta = is_meta c; width = 1 }
token (c ∷ d ∷ p) escapes =
    if escapes && c == backslash
    then record { byte = d; meta = false; width = 2 }
    else record { byte = c; meta = is_meta c; width = 1 }

-- `star` and `starV`: the pattern from the star on, and the value where its attempt began.
abbrev pub Back : Type 0
Back = Option (Bytes × Bytes)

-- The second loop of `matchGlob`, over trailing stars, and the test that ends it.
unfoldable pub only_stars : ℕ → Bytes → Bool → Bool
only_stars zero p escapes = false
only_stars (suc fuel) p escapes =
    let t = token p escapes in
    let more = only_stars fuel (drop t.width p) escapes in
    if not t.meta || not (t.byte == asterisk) then length p == 0 else more

-- The first loop of `matchGlob`. A round ends the loop, or goes on at a new `p`, `v` and star.
unfoldable pub scan : ℕ → Bytes → Bytes → Back → Bool → Bool
scan zero p v star escapes = false
scan (suc fuel) p [] star escapes = only_stars (suc (length p)) p escapes
scan (suc fuel) p (c ∷ v) star escapes =
    let t = token p escapes in
    let p' = drop t.width p in
    let at_star = scan fuel p' (c ∷ v) (some (p, c ∷ v)) escapes in
    let onward = scan fuel p' v star escapes in
    let retry : Bool = elim star [
      | none ↦ false
      | some (q, w) ↦ scan fuel (drop 1 q) (drop 1 w) (some (q, drop 1 w)) escapes
    ] in
    if t.meta && t.byte == asterisk
    then at_star
    else if not (t.width == 0) && (t.meta || t.byte == c)
    then onward
    else retry

unfoldable pub match_glob : Bytes → Bytes → Bool → Bool
unfolding scan only_stars token
match_glob pattern value escapes =
    scan ((length value + 1) * (length pattern + 1)) pattern value none escapes

-- `strings.ContainsAny(pattern, "*?")`
unfoldable pub has_meta : Bytes → Bool
has_meta = any is_meta

unfoldable pub match_wildcard : Bytes → Bytes → Bool
unfolding match_glob has_meta
match_wildcard pattern value =
    if eqb pattern (codes "*")
    then true
    else if not (has_meta pattern)
    then eqb pattern value
    else match_glob pattern value false
