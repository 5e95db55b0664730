-- ===== src/Broker/Names.antt =====
-- The names that the endpoints of glidepath/broker/cmd/token-review-interceptor accept: its regular
-- expressions, each as a test on texts. Their `$` is the end of the text.
use Prim.Native.Char.{code}
use glidepath.Prelude.{
  ℕ, ◌+◌, String, Bool, true, false, ◌&&◌, ◌||◌, not, Option, some, none, ◌==◌, ltb, leb, eqb,
  if◌then◌else◌,
}
unfoldable pub use glidepath.Prelude.Text.Classes.{every, is_plain, is_alnum, size}
use glidepath.Prelude.Text.{Cut, found, missing, cut, contains, strip_prefix}

abbrev pub or_dash : (ℕ → Bool) → ℕ → Bool
or_dash p c = p c || eqb c b'-'

-- One character that passes, then any number that pass or are dashes.
unfoldable pub is_name : (ℕ → Bool) → String → Bool
is_name p String.[] = false
is_name p (String.◌∷◌ c s) = p (code c) && every (or_dash p) s

-- `ownerPattern`.
unfoldable pub is_owner : String → Bool
is_owner s = is_name is_alnum s

-- `gitopsRepoPattern`.
unfoldable pub is_gitops_repo : String → Bool
is_gitops_repo s = elim (strip_prefix "gitops-" s) [ none ↦ false | some r ↦ is_name is_plain r ]

-- `githubReadAppRE`.
unfoldable pub is_app : String → Bool
is_app s = is_name is_plain s && leb (size s) 63

abbrev pub is_repo_char : ℕ → Bool
is_repo_char c = is_alnum c || (eqb c b'.' || (eqb c b'_' || eqb c b'-'))

-- `githubReadRepoRE`.
unfoldable pub is_repo : String → Bool
is_repo s = every is_repo_char s && (ltb 0 (size s) && leb (size s) 100)

abbrev pub is_digit : ℕ → Bool
is_digit c = leb b'0' c && leb c b'9'

abbrev is_digits : String → Bool
is_digits s = not (s == "") && every is_digit s

abbrev pr_suffix : Option String → Bool
pr_suffix none = false
pr_suffix (some n) = is_digits n

-- What stands before a text's ending "-pr-<digits>". No two places end it so, as digits have no dash.
unfoldable pub before_pr : String → Option String
before_pr String.[] = none
before_pr (String.◌∷◌ c s) =
    let rest = before_pr s in
    if pr_suffix (strip_prefix "-pr-" (String.◌∷◌ c s))
    then some ""
    else elim rest [ none ↦ none | some b ↦ some (String.◌∷◌ c b) ]

abbrev pub real_base : Option String → Option String
real_base none = none
real_base (some b) = if b == "" || contains 10 b then none else some b

-- `prEnvNamespacePattern` and its first group; `.` is no newline.
unfoldable pub pr_base : String → Option String
pr_base ns = real_base (before_pr ns)

-- What `[^/]+?)(\.git)?/?$` matches: a segment, and one slash behind it or none.
unfoldable pub is_last_segment : String → Bool
is_last_segment String.[] = false
is_last_segment (String.◌∷◌ c s) =
    not (eqb (code c) b'/') && (s == "" || (s == "/" || is_last_segment s))

abbrev owner_segment : Cut → Option String
owner_segment missing = none
owner_segment (found o rest) = if not (o == "") && is_last_segment rest then some o else none

-- `githubRepoRE` and its first group.
unfoldable pub url_owner : String → Option String
url_owner url = elim (strip_prefix "https://github.com/" url) [
  | none ↦ none
  | some rest ↦ owner_segment (cut b'/' rest)
]

-- Lower case, where the other text is ASCII: only the Kelvin sign and the long s fold into ASCII.
abbrev pub fold : ℕ → ℕ
fold c =
    if leb b'A' c && leb c b'Z'
    then c + 32
    else if eqb c 8490
    then b'k'
    else if eqb c 383
    then b's'
    else c

-- `strings.EqualFold(s, t)` for an ASCII `t`.
unfoldable pub equal_fold : String → String → Bool
equal_fold String.[] String.[] = true
equal_fold String.[] (String.◌∷◌ d t) = false
equal_fold (String.◌∷◌ c s) String.[] = false
equal_fold (String.◌∷◌ c s) (String.◌∷◌ d t) = eqb (fold (code c)) (fold (code d)) && equal_fold s t
