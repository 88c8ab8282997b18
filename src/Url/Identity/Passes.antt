-- ===== src/Url/Identity/Passes.antt =====
-- How many passes `CanonicalRepositoryInfo` makes, and what another call makes of its result.
use kwt.Common.{
  ℕ, zero, suc, ◌+◌, ◌≤◌, ◌<◌, ◌≡◌, ◌≢◌, refl, sym, ap, ◌∙◌, subst, inl, inr, Bool, true, false,
  Option, none, some, Text, arith, Bool-cases, ◌==◌, ==_iff, ok, trim_space,
}
use kwt.Url.Repository.{NetUrl, RepositoryInfo, parse_repository_url}
use kwt.Url.Identity.{
  checked, slug_or, parse_canonical_authority_slug, passes_canonical_identity_prechecks,
  canonical_within, passes_for, canonical_repository_info, full_path_of,
  canonical_repository_identity,
}
use kwt.Url.Identity.Sizes.{size, size-le, size-trim_space-le}
use kwt.Url.Identity.Origins.{IsNetUrl, parse-size}
use kwt.Common.Trimming.{trim_space_idem}
use kwt.Url.Identity.Continuations.{slug_or-agree, slug_or-later, Comes, slug_or-Comes}

module _ (net : NetUrl) where
  abbrev pass : (Text → Option RepositoryInfo) → Text → Option RepositoryInfo
  pass again s = checked net (passes_canonical_identity_prechecks s) again s

  canonical-suc :
      (n : ℕ) (x : Text)
      → canonical_within net (suc n) x ≡ pass (canonical_within net n) (trim_space x)
  unfolding canonical_within
  canonical-suc n x = refl

  checked-agree :
      (b : Bool) (f g : Text → Option RepositoryInfo) (s : Text)
      → ((info : RepositoryInfo)
          → parse_repository_url net s ≡ ok info
          → info.full_path ≢ s
          → f info.full_path ≡ g info.full_path)
      → checked net b f s ≡ checked net b g s
  unfolding checked
  checked-agree false f g s h = refl
  checked-agree true f g s h =
      slug_or-agree f g s (parse_repository_url net s) (parse_canonical_authority_slug s) h

  checked-later :
      (b : Bool) (f g : Text → Option RepositoryInfo) (s : Text) (i : RepositoryInfo)
      → ((y : Text) (j : RepositoryInfo) → f y ≡ some j → g y ≡ some j)
      → checked net b f s ≡ some i
      → checked net b g s ≡ some i
  unfolding checked
  checked-later false f g s i k e = e
  checked-later true f g s i k e =
      slug_or-later f g s (parse_repository_url net s) (parse_canonical_authority_slug s) i k e

  checked-Comes :
      (b : Bool) (f : Text → Option RepositoryInfo) (s : Text) (i : RepositoryInfo)
      → parse_canonical_authority_slug s ≡ none
      → checked net b f s ≡ some i
      → Comes f s i
  unfolding checked
  checked-Comes false f s i n e = ground arith
  checked-Comes true f s i n e =
      slug_or-Comes f s (parse_repository_url net s) i
        (subst (λ o. slug_or f s (parse_repository_url net s) o ≡ some i) n e)

  -- Above its size, a text has its passes.
  one_more :
      (n : ℕ) (x : Text)
      → IsNetUrl net
      → size x < n
      → canonical_within net n x ≡ canonical_within net (suc n) x
  one_more zero x h l = ground arith
  one_more (suc n) x h l =
      canonical-suc n x
      ∙ (checked-agree (passes_canonical_identity_prechecks (trim_space x)) (canonical_within net n)
            (canonical_within net (suc n)) (trim_space x)
            (λ info e ne. elim (parse-size net (trim_space x) info h e) [
              | inl same ↦ elim (ne same) [ ]
              | inr s ↦ one_more n info.full_path h (omega (arith, s, size-trim_space-le x))
            ])
          ∙ sym (canonical-suc (suc n) x))

  more :
      (m n : ℕ) (x : Text)
      → IsNetUrl net
      → size x < n
      → n ≤ m
      → canonical_within net n x ≡ canonical_within net m x
  more zero n x h l le = ground arith
  more (suc m) n x h l le = elim (Bool-cases (n == suc m)) [
    | inl e ↦ ap (λ k. canonical_within net k x) ((==_iff n (suc m)).0 e)
    | inr e ↦ more m n x h l (ground arith) ∙ one_more m x h (ground arith)
  ]

  later :
      (n : ℕ) (x : Text) (i : RepositoryInfo)
      → canonical_within net n x ≡ some i
      → canonical_within net (suc n) x ≡ some i
  unfolding canonical_within
  later zero x i e = ground arith
  later (suc n) x i e =
      checked-later (passes_canonical_identity_prechecks (trim_space x)) (canonical_within net n)
        (canonical_within net (suc n)) (trim_space x) i (later n) e

  much_later :
      (m n : ℕ) (x : Text) (i : RepositoryInfo)
      → n ≤ m
      → canonical_within net n x ≡ some i
      → canonical_within net m x ≡ some i
  much_later zero n x i le e = subst (λ k. canonical_within net k x ≡ some i) (omega arith) e
  much_later (suc m) n x i le e = elim (Bool-cases (n == suc m)) [
    | inl same ↦ subst (λ k. canonical_within net k x ≡ some i) ((==_iff n (suc m)).0 same) e
    | inr ne ↦ later m x i (much_later m n x i (ground arith) e)
  ]

  -- Where net/url keeps to its documentation, the passes that are counted for a text suffice: any
  -- larger number of them gives the same result.
  pub canonical_within_enough :
      (n : ℕ) (raw : Text)
      → IsNetUrl net
      → passes_for raw ≤ n
      → canonical_within net n raw ≡ canonical_repository_info net raw
  unfolding canonical_repository_info
  canonical_within_enough n raw h le =
      sym (more n (passes_for raw) raw h (omega (arith, size-le raw)) le)

  found :
      (n : ℕ) (x : Text) (i : RepositoryInfo)
      → IsNetUrl net
      → canonical_within net n x ≡ some i
      → canonical_repository_info net x ≡ some i
  found n x i h e =
      sym (canonical_within_enough (n + passes_for x) x h (omega arith))
      ∙ much_later (n + passes_for x) n x i (omega arith) e

  trimmed : (n : ℕ) (x : Text) → canonical_within net n (trim_space x) ≡ canonical_within net n x
  unfolding canonical_within
  trimmed zero x = refl
  trimmed (suc n) x = ap (pass (canonical_within net n)) (trim_space_idem x)

  info_again :
      (raw : Text) (i : RepositoryInfo)
      → IsNetUrl net
      → canonical_repository_info net raw ≡ some i
      → parse_canonical_authority_slug (trim_space raw) ≡ none
      → full_path_of (canonical_repository_info net i.full_path) ≡ some i.full_path
  unfolding canonical_repository_info
  info_again raw i h e s =
      elim (checked-Comes (passes_canonical_identity_prechecks (trim_space raw))
        (canonical_within net (passes_for raw)) (trim_space raw) i s
        (later (passes_for raw) raw i e)) [
          | inl same ↦ ap full_path_of (
              found (passes_for raw) i.full_path i h (
                subst (λ t. canonical_within net (passes_for raw) t ≡ some i) (sym same)
                  (trimmed (passes_for raw) raw ∙ e)))
          | inr (j, (again, path)) ↦
              ap full_path_of (found (passes_for raw) i.full_path j h again) ∙ ap some path
        ]

  -- Where net/url keeps to its documentation, an identity that was made of anything but a slug with a
  -- port is again accepted, and is its own identity.
  pub canonical_repository_identity_again :
      (raw identity : Text)
      → IsNetUrl net
      → parse_canonical_authority_slug (trim_space raw) ≡ none
      → canonical_repository_identity net raw ≡ some identity
      → canonical_repository_identity net identity ≡ some identity
  unfolding canonical_repository_identity
  canonical_repository_identity_again raw identity h s e =
      step (canonical_repository_info net raw) refl
    where
      step :
          (o : Option RepositoryInfo)
          → canonical_repository_info net raw ≡ o
          → canonical_repository_identity net identity ≡ some identity
      step none n = ground arith
      step (some i) n =
          subst (λ x. canonical_repository_identity net x ≡ some x) (path_of i n)
            (info_again raw i h n s)
        where
          path_of :
              (j : RepositoryInfo)
              → canonical_repository_info net raw ≡ some j
              → j.full_path ≡ identity
          path_of j m = ground arith
