-- ===== src/Account/Samples/Carried.antt =====
-- The logins that the link carries arrive on the page.
use gh_stories.Prelude.{
  ℕ, suc, zero, ◌+◌, ◌≡◌, inl, inr, refl, Bool, true, false, not, ◌&&◌, ◌||◌, List, [], ◌∷◌, ◌++◌,
  All, ltb, leb, ◌==◌, if◌then◌else◌, length, length-append, take, select_rows, arith, Bool-cases,
  sym, ◌∙◌, ap, append-nil, append_assoc,
}
use gh_stories.Account.Samples.{
  are_login_bytes, first_is, last_is, is_github_login, join_commas, sample_logins, split_commas,
  collect_names, import_sample,
}

-- The order of the tests does not matter.
pick {ℓ} :
    {A : Type ℓ} (a b c d e l : Bool) (x y : A)
    → (if a || b || c || d || e then y else if l then x else y)
      ≡ (if (if a || b || d || e then false else l) && not c then x else y)
pick a b c d e l x y = ground arith

collect_names_step :
    (out : List (List ℕ)) (n : List ℕ) (ns : List (List ℕ))
    → collect_names out (n ∷ ns) ≡ (
        if is_github_login n && not (leb 5 (length out))
        then collect_names (out ++ n ∷ []) ns
        else collect_names out ns)
unfolding is_github_login
collect_names_step out n ns =
    pick (length n == 0) (ltb 39 (length n)) (leb 5 (length out)) (first_is b'-' n) (last_is b'-' n)
      (are_login_bytes 0 n) (collect_names (out ++ n ∷ []) ns) (collect_names out ns)

collect_names-take :
    (k : ℕ) (out ns : List (List ℕ))
    → k + length out ≡ 5
    → collect_names out ns ≡ out ++ take k (select_rows is_github_login ns)
collect_names-take zero out [] h = sym (append-nil out)
collect_names-take (suc k) out [] h = sym (append-nil out)
collect_names-take zero out (n ∷ ns) h =
    let full : leb 5 (length out) ≡ true = ground arith in
    let rest = collect_names-take zero out ns h in
    collect_names_step out n ns
    ∙ (elim (Bool-cases (is_github_login n)) [ inl e ↦ rw (e, full) rest | inr e ↦ rw e rest ])
collect_names-take (suc k) out (n ∷ ns) h =
    let free : leb 5 (length out) ≡ false = ground arith in
    collect_names_step out n ns ∙ (elim (Bool-cases (is_github_login n)) [
      | inl e ↦
          rw (e, free)
            (collect_names-take k (out ++ n ∷ []) ns (omega (arith, length-append out (n ∷ []), h))
              ∙ append_assoc out (n ∷ []) _)
      | inr e ↦ rw e (collect_names-take (suc k) out ns h)
    ])

-- No comma is a byte of a login.
are_login_bytes-All :
    (before : ℕ) (s : List ℕ) → are_login_bytes before s ≡ true → All (λ c. (c == b',') ≡ false) s
are_login_bytes-All before [] h = tt
are_login_bytes-All before (c ∷ cs) h = (ground arith, are_login_bytes-All c cs (ground arith))

split_commas-++ :
    (n rest : List ℕ)
    → All (λ c. (c == b',') ≡ false) n
    → split_commas (n ++ b',' ∷ rest) ≡ n ∷ split_commas rest
split_commas-++ [] rest h = refl
split_commas-++ (c ∷ cs) rest h = rw (h.0, split_commas-++ cs rest h.1) refl

split_commas_one : (n : List ℕ) → All (λ c. (c == b',') ≡ false) n → split_commas n ≡ n ∷ []
split_commas_one [] h = refl
split_commas_one (c ∷ cs) h = rw (h.0, split_commas_one cs h.1) refl

split_commas-join_commas :
    (n : List ℕ) (ns : List (List ℕ))
    → All (All (λ c. (c == b',') ≡ false)) (n ∷ ns)
    → split_commas (join_commas (n ∷ ns)) ≡ n ∷ ns
split_commas-join_commas n [] h = split_commas_one n h.0
split_commas-join_commas n (m ∷ ns) h =
    split_commas-++ n (join_commas (m ∷ ns)) h.0
    ∙ ap (λ r. n ∷ r) (split_commas-join_commas m ns h.1)

select_rows_again {ℓ} :
    {A : Type ℓ} (p : A → Bool) (xs : List A) → select_rows p (select_rows p xs) ≡ select_rows p xs
select_rows_again p [] = refl
select_rows_again p (x ∷ xs) = elim (Bool-cases (p x)) [
  | inl e ↦ rw (e, e, select_rows_again p xs) refl
  | inr e ↦ rw (e, select_rows_again p xs) refl
]

import_sample-collect_names : (s : List ℕ) → import_sample s ≡ collect_names [] (split_commas s)
unfolding import_sample
import_sample-collect_names [] = refl
import_sample-collect_names (c ∷ cs) = refl

logins-All :
    (ns : List (List ℕ)) → All (All (λ c. (c == b',') ≡ false)) (select_rows is_github_login ns)
logins-All [] = tt
logins-All (n ∷ ns) = elim (Bool-cases (is_github_login n)) [
  | inl e ↦ rw e (are_login_bytes-All 0 n (unfold is_github_login in ground arith), logins-All ns)
  | inr e ↦ rw e (logins-All ns)
]

of_joined :
    (ns : List (List ℕ))
    → All (All (λ c. (c == b',') ≡ false)) ns
    → import_sample (join_commas ns) ≡ take 5 (select_rows is_github_login ns)
of_joined [] h = unfold import_sample in refl
of_joined (n ∷ ns) h =
    import_sample-collect_names (join_commas (n ∷ ns))
    ∙ ap (collect_names []) (split_commas-join_commas n ns h)
    ∙ collect_names-take 5 [] (n ∷ ns) (omega arith)

-- The page reads from the link that an import ends at the first five of the logins that were put into
-- it and have the form of a GitHub login, in their order, whatever the names were.
pub import_sample-sample_logins :
    (logins : List (List ℕ))
    → import_sample (sample_logins logins) ≡ take 5 (select_rows is_github_login logins)
unfolding sample_logins
import_sample-sample_logins logins =
    of_joined (select_rows is_github_login logins) (logins-All logins)
    ∙ ap (take 5) (select_rows_again is_github_login logins)
