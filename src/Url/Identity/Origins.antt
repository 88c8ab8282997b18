-- ===== src/Url/Identity/Origins.antt =====
-- Where an identity of internal/url comes from: what net/url documents of its parts, and the size of
-- the text that it was parsed from.
use kwt.Common.{
  ◌+◌, ◌≤◌, ◌<◌, ◌≡◌, refl, ap, ◌≢◌, ◌⊎◌, inl, inr, Bool, Option, none, some, [], ◌∷◌, ◌++◌, Text,
  codes, arith, if◌then◌else◌, length, length-append, Result, ok, err, trim_left_of, trim_right_of,
  split, has_prefix, contains, to_lower, eq_complete, Option-cases,
}
use kwt.Url.Authority.{is_remote_helper_url, Scp, split_scp_like_url}
use kwt.Url.Repository.{
  ParsedUrl, NetUrl, RepositoryInfo, UrlError, remote_helper, unsupported_scheme, without_user,
  https, scp_address, repository_info_from_parts, normalize_explicit_network_url, normalize_url,
  normalize_scp, parse_repository_url,
}
use kwt.Url.Identity.Lengths.{Shortened, Shortened-trans}
use kwt.Url.Identity.Sizes.{size, size-lt, size-Shortened, Shortened-le, info-Shortened, scp-size}

-- What net/url documents of the parts that it finds in a text.
pub record IsNetUrl (net : NetUrl) : Type 0 where
  -- The authority stands behind two slashes.
  pub authority_marked :
      (s : Text) (u : ParsedUrl)
      → net.parse s ≡ some u
      → u.host ≢ []
      → length u.host + length u.path + 2 ≤ length s
  -- What is not in the host and the path was a user, a query, a fragment or an escape.
  pub nothing_added :
      (s : Text) (u : ParsedUrl) → net.parse (https ++ s) ≡ some u → Shortened (u.host ++ u.path) s
  -- A path behind a host is empty or begins with a slash.
  pub rooted :
      (s : Text) (u : ParsedUrl)
      → net.parse s ≡ some u
      → u.host ≢ []
      → (u.path ≡ []) ⊎ ((q : Text) × (u.path ≡ b'/' ∷ q))
  -- A URL with a host is printed as a text that reads back with its host and path.
  pub reprinted :
      (s : Text) (u v : ParsedUrl)
      → net.parse s ≡ some u
      → u.host ≢ []
      → net.parse (net.print (without_user u)) ≡ some v
      → (v.host ≡ u.host) × (v.path ≡ u.path)

-- Where the host and the path of a parsed text come from.
abbrev Origin : Text → ParsedUrl → Type 0
Origin raw u =
    (length u.host + length u.path < length raw)
    ⊎ (Shortened (u.host ++ u.path) raw
        ⊎ ((s : Text) × (Shortened (u.host ++ u.path) s × (size s < size raw))))

normalize_none-cases :
    (raw norm : Text) → normalize_scp raw none ≡ ok norm → (norm ≡ raw) ⊎ (norm ≡ https ++ raw)
unfolding normalize_scp has_prefix
normalize_none-cases raw norm h = ground arith

normalize_some :
    (raw norm : Text) (scp : Scp)
    → normalize_scp raw (some scp) ≡ ok norm
    → norm ≡ https ++ scp.host ++ b'/' ∷ trim_left_of b'/' scp.remote_path
unfolding normalize_scp scp_address
normalize_some raw norm scp h = ground arith

normalize_scp-Origin :
    (net : NetUrl) (raw norm : Text) (u : ParsedUrl) (o : Option Scp)
    → IsNetUrl net
    → split_scp_like_url raw ≡ o
    → normalize_scp raw o ≡ ok norm
    → net.parse norm ≡ some u
    → u.host ≢ []
    → Origin raw u
normalize_scp-Origin net raw norm u none n e h p q = elim (normalize_none-cases raw norm h) [
  | inl same ↦ inl (omega (arith, ap length same, n.authority_marked norm u p q))
  | inr same ↦ inr (inl (n.nothing_added raw u (rw same at p)))
]
normalize_scp-Origin net raw norm u (some scp) n e h p q = inr (
    inr (
      scp.host ++ b'/' ∷ trim_left_of b'/' scp.remote_path,
      (
        n.nothing_added (scp.host ++ b'/' ∷ trim_left_of b'/' scp.remote_path) u
            (rw (normalize_some raw norm scp h) at p),
        scp-size raw scp e,
      ),
    ))

routes :
    (b c d : Bool) (x y : Result UrlError Text) (norm : Text)
    → (if b then err remote_helper else if c then x else if d then err unsupported_scheme else y)
      ≡ ok norm
    → (x ≡ ok norm) ⊎ (y ≡ ok norm)
routes b c d x y norm h = ground arith

module _ (net : NetUrl) where
  explicit-cases :
      (raw norm : Text) (v : ParsedUrl)
      → net.parse raw ≡ some v
      → normalize_explicit_network_url net raw ≡ ok norm
      → (v.host ≢ []) × ((norm ≡ raw) ⊎ (norm ≡ net.print (without_user v)))
  unfolding normalize_explicit_network_url
  explicit-cases raw norm v e h = ground (arith, eq_complete v.host [])

  explicit-parsed :
      (raw norm : Text)
      → normalize_explicit_network_url net raw ≡ ok norm
      → (v : ParsedUrl) × (net.parse raw ≡ some v)
  unfolding normalize_explicit_network_url
  explicit-parsed raw norm h = elim (Option-cases (net.parse raw)) [
    | inl e ↦ ground arith
    | inr found ↦ found
  ]

  explicit-Origin :
      (raw norm : Text) (u : ParsedUrl)
      → IsNetUrl net
      → normalize_explicit_network_url net raw ≡ ok norm
      → net.parse norm ≡ some u
      → u.host ≢ []
      → Origin raw u
  explicit-Origin raw norm u n h p q =
      let (v, e) = explicit-parsed raw norm h in
      let (present, origin) = explicit-cases raw norm v e h in
      elim origin [
        | inl same ↦ inl (omega (arith, ap length same, n.authority_marked norm u p q))
        | inr printed ↦
            let (hosts, paths) = n.reprinted raw v u e present (rw printed at p) in
            inl
              (omega (arith, ap length hosts, ap length paths, n.authority_marked raw v e present))
      ]

  normalize_url-cases :
      (raw norm : Text)
      → normalize_url net raw ≡ ok norm
      → (normalize_explicit_network_url net raw ≡ ok norm)
        ⊎ (normalize_scp raw (split_scp_like_url raw) ≡ ok norm)
  unfolding normalize_url
  normalize_url-cases raw norm h =
      routes (is_remote_helper_url raw) (contains raw (codes "://"))
        (has_prefix (to_lower raw) (codes "file:")) (normalize_explicit_network_url net raw)
        (normalize_scp raw (split_scp_like_url raw)) norm h

  parse-full_path :
      (raw norm : Text) (u : ParsedUrl) (info : RepositoryInfo)
      → normalize_url net raw ≡ ok norm
      → net.parse norm ≡ some u
      → parse_repository_url net raw ≡ ok info
      → (u.host ≢ [])
        × (repository_info_from_parts u.host
              (split b'/' (trim_right_of b'/' (trim_left_of b'/' u.path)))
            ≡ ok info)
  unfolding parse_repository_url
  parse-full_path raw norm u info e p h = ground (arith, eq_complete u.host [])

  Origin-size :
      (raw full : Text) (u : ParsedUrl)
      → Origin raw u
      → Shortened full (u.host ++ u.path)
      → (full ≡ raw) ⊎ (size full < size raw)
  Origin-size raw full u (inl l) k = inr (
      size-lt full raw
        (omega (arith, Shortened-le full (u.host ++ u.path) k, length-append u.host u.path)))
  Origin-size raw full u (inr (inl m)) k = elim (Shortened-trans full (u.host ++ u.path) raw k m) [
    | inl same ↦ inl same
    | inr l ↦ inr (size-lt full raw l)
  ]
  Origin-size raw full u (inr (inr (s, (m, l)))) k =
      inr (omega (arith, size-Shortened full s (Shortened-trans full (u.host ++ u.path) s k m)))

  normalize_url-Origin :
      (raw norm : Text) (u : ParsedUrl)
      → IsNetUrl net
      → normalize_url net raw ≡ ok norm
      → net.parse norm ≡ some u
      → u.host ≢ []
      → Origin raw u
  normalize_url-Origin raw norm u n h p q = elim (normalize_url-cases raw norm h) [
    | inl k ↦ explicit-Origin raw norm u n k p q
    | inr k ↦ normalize_scp-Origin net raw norm u (split_scp_like_url raw) n refl k p q
  ]

  parse-parsed :
      (raw : Text) (info : RepositoryInfo)
      → parse_repository_url net raw ≡ ok info
      → (norm : Text) × ((u : ParsedUrl) × ((normalize_url net raw ≡ ok norm)
            × (net.parse norm ≡ some u)))
  unfolding parse_repository_url
  parse-parsed raw info h = step (normalize_url net raw) refl
    where
      step :
          (m : Result UrlError Text)
          → normalize_url net raw ≡ m
          → (norm : Text) × ((u : ParsedUrl) × ((normalize_url net raw ≡ ok norm)
                × (net.parse norm ≡ some u)))
      step (ok norm) e = elim (Option-cases (net.parse norm)) [
        | inl p ↦ ground arith
        | inr (u, p) ↦ (norm, (u, (e, p)))
      ]
      step (err x) e = ground arith

  -- A repository that is parsed from a text has that text as its identity, or a smaller one.
  pub parse-size :
      (raw : Text) (info : RepositoryInfo)
      → IsNetUrl net
      → parse_repository_url net raw ≡ ok info
      → (info.full_path ≡ raw) ⊎ (size info.full_path < size raw)
  parse-size raw info n h =
      let (norm, (u, (e, p))) = parse-parsed raw info h in
      let (present, parts) = parse-full_path raw norm u info e p h in
      Origin-size raw info.full_path u (normalize_url-Origin raw norm u n e p present)
        (info-Shortened u.host u.path info (n.rooted norm u p present) parts)
