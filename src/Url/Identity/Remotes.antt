-- ===== src/Url/Identity/Remotes.antt =====
-- What a remote's address needs, and what the configured bar makes of its identity.
use kwt.Common.{
  ◌≡◌, subst, Bool, true, false, ◌||◌, not, Option, none, some, Text, arith, if◌then◌else◌, ◌=?◌,
  eq_sound, Result, ok, err, trim_space, [], ◌∷◌, ◌++◌, ℕ, refl, ◌==◌, cut, cut_sound, Lacks,
  contains_byte, not-eq-true, Bool-cases, inl, inr,
}
use kwt.Url.Repository.{NetUrl, RepositoryInfo, UrlError, parse_repository_url}
use kwt.Url.Identity.{
  agreeing, full_path_of, has_explicit_remote_syntax, passes_canonical_identity_prechecks,
  canonical_repository_info, canonical_repository_identity, remote_info,
  canonical_repository_info_from_remote, canonical_repository_identity_from_remote,
}

agreeing-path :
    (info : RepositoryInfo) (identity : Text) (o : Option RepositoryInfo)
    → full_path_of (agreeing info o) ≡ some identity
    → (info.full_path ≡ identity) × (full_path_of o ≡ some identity)
unfolding agreeing
agreeing-path info identity none e = ground arith
agreeing-path info identity (some j) e = ground (arith, eq_sound j.full_path info.full_path)

unless-none :
    (b : Bool) (o : Option RepositoryInfo) (identity : Text)
    → full_path_of (if b then none else o) ≡ some identity
    → (b ≡ false) × (full_path_of o ≡ some identity)
unless-none b o identity e = ground arith

contains_byte-Lacks : (c : ℕ) (s : Text) → contains_byte c s ≡ false → Lacks c s
contains_byte-Lacks c [] h = tt
contains_byte-Lacks c (d ∷ s) h = elim (Bool-cases (d == c)) [
  | inl t ↦ ground (arith, rw t at h)
  | inr n ↦ ((λ w. ground (arith, n, w)), contains_byte-Lacks c s (rw n at h))
]

explicit_sound :
    (s : Text)
    → has_explicit_remote_syntax s ≡ true
    → (first : Text) × (rest : Text) × (s ≡ first ++ b':' ∷ rest)
      × Lacks b':' first
      × Lacks b'/' first
unfolding has_explicit_remote_syntax
explicit_sound s h = by_cut (cut b':' s) refl h
  where
    by_cut :
        (o : Option (Text × Text))
        → cut b':' s ≡ o
        → elim o [ none ↦ false | some (first, _) ↦ not (contains_byte b'/' first) ] ≡ true
        → (first : Text) × (rest : Text) × (s ≡ first ++ b':' ∷ rest)
          × Lacks b':' first
          × Lacks b'/' first
    by_cut none q k = ground arith
    by_cut (some (first, rest)) q k =
        let (whole, lacks) = cut_sound b':' s first rest q in
        (first, rest, whole, lacks, contains_byte-Lacks b'/' first (not-eq-true _ k))

module _ (net : NetUrl) where
  remote_info-path :
      (r : Result UrlError RepositoryInfo) (identity : Text)
      → full_path_of (remote_info net r) ≡ some identity
      → full_path_of (canonical_repository_info net identity) ≡ some identity
  unfolding remote_info
  remote_info-path (err x) identity e = ground arith
  remote_info-path (ok info) identity e =
      let inner =
        (unless-none (trim_space info.full_path =? [])
          (agreeing info (canonical_repository_info net info.full_path)) identity e).1 in
      let (same, path) =
        agreeing-path info identity (canonical_repository_info net info.full_path) inner in
      subst (λ x. full_path_of (canonical_repository_info net x) ≡ some identity) same path

  -- A remote that gets an identity has, once trimmed, a colon with no slash and no colon before it;
  -- and its identity is one that the bar for configured identities accepts and leaves as it is.
  pub canonical_repository_identity_from_remote_lem :
      (raw identity : Text)
      → canonical_repository_identity_from_remote net raw ≡ some identity
      → ((first : Text) × (rest : Text) × (trim_space raw ≡ first ++ b':' ∷ rest)
          × Lacks b':' first
          × Lacks b'/' first)
        × (canonical_repository_identity net identity ≡ some identity)
  unfolding canonical_repository_identity_from_remote canonical_repository_info_from_remote
      canonical_repository_identity
  canonical_repository_identity_from_remote_lem raw identity e =
      let tested = has_explicit_remote_syntax (trim_space raw) in
      let (passed, path) =
        unless-none (not tested || not (passes_canonical_identity_prechecks (trim_space raw)))
          (remote_info net (parse_repository_url net (trim_space raw))) identity e in
      (
        explicit_sound (trim_space raw) (ground arith),
        remote_info-path (parse_repository_url net (trim_space raw)) identity path,
      )
