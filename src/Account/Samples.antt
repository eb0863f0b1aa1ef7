-- ===== src/Account/Samples.antt =====
-- The logins of an import's sample: written into the link that an import ends at, and read by the page
-- behind it (handlers_auth.go and account.go). A login is its bytes.
pub mod Carried
use gh_stories.Prelude.{
  ℕ, suc, zero, ◌+◌, ◌-◌, ◌≤◌, ◌≡◌, ◌⊎◌, inl, inr, refl, Bool, true, false, not, ◌&&◌, ◌||◌, List,
  [], ◌∷◌, ◌++◌, ltb, leb, ◌==◌, if◌then◌else◌, length, take, select_rows, arith, Bool-cases, sym,
  ◌∙◌, ap,
}

abbrev is_alphanumeric : ℕ → Bool
is_alphanumeric c = leb b'a' c && leb c b'z' || leb b'A' c && leb c b'Z' || leb b'0' c && leb c b'9'

abbrev pub first_is : ℕ → List ℕ → Bool
first_is d [] = false
first_is d (c ∷ cs) = c == d

abbrev pub last_is : ℕ → List ℕ → Bool
last_is d [] = false
last_is d (c ∷ []) = c == d
last_is d (c ∷ e ∷ cs) = last_is d (e ∷ cs)

-- The loop over the bytes behind `before`, which is 0 at the start.
abbrev pub are_login_bytes : ℕ → List ℕ → Bool
are_login_bytes before [] = true
are_login_bytes before (c ∷ cs) =
    (is_alphanumeric c || c == b'-' && not (before == b'-')) && are_login_bytes c cs

-- `isGitHubLogin`
unfoldable pub is_github_login : List ℕ → Bool
is_github_login s =
    if length s == 0 || ltb 39 (length s) || first_is b'-' s || last_is b'-' s
    then false
    else are_login_bytes 0 s

-- `strings.Join` with a comma.
abbrev pub join_commas : List (List ℕ) → List ℕ
join_commas [] = []
join_commas (n ∷ []) = n
join_commas (n ∷ m ∷ ns) = n ++ b',' ∷ join_commas (m ∷ ns)

-- `sampleLogins`, of the logins of the identities.
unfoldable pub sample_logins : List (List ℕ) → List ℕ
sample_logins logins = join_commas (select_rows is_github_login logins)

abbrev pub on_first : ℕ → List (List ℕ) → List (List ℕ)
on_first c [] = (c ∷ []) ∷ []
on_first c (n ∷ ns) = (c ∷ n) ∷ ns

-- `strings.Split` at the commas.
abbrev pub split_commas : List ℕ → List (List ℕ)
split_commas [] = [] ∷ []
split_commas (c ∷ cs) =
    let rest = split_commas cs in if c == b',' then [] ∷ rest else on_first c rest

abbrev pub is_skipped : List (List ℕ) → List ℕ → Bool
is_skipped out name =
    length name == 0
    || ltb 39 (length name)
    || leb 5 (length out)
    || first_is b'-' name
    || last_is b'-' name

-- The loop of `importSample`.
abbrev pub collect_names : List (List ℕ) → List (List ℕ) → List (List ℕ)
collect_names out [] = out
collect_names out (name ∷ names) =
    if is_skipped out name
    then collect_names out names
    else if are_login_bytes 0 name
    then collect_names (out ++ name ∷ []) names
    else collect_names out names

-- `importSample`
unfoldable pub import_sample : List ℕ → List (List ℕ)
import_sample [] = []
import_sample (c ∷ cs) = collect_names [] (split_commas (c ∷ cs))
