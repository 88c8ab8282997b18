-- ===== src/Url/Identity/Examples.antt =====
-- The identities of internal/url on concrete addresses, with a small parser in the place of net/url.
use kwt.Common.{
  Lacks, ◌≡◌, ◌⊎◌, refl, sym, ap, ◌∙◌, subst, inl, inr, true, Option, none, some, [], ◌∷◌, ◌++◌,
  Text, codes, arith, if◌then◌else◌, length, drop, length-append, append-nil, has_prefix, cut,
  cut_sound, trim_space,
}
use kwt.Url.Repository.{ParsedUrl, NetUrl, https}
use kwt.Url.Identity.{
  fold_repository_identity, canonical_within, canonical_repository_info,
  canonical_repository_identity, canonical_repository_identity_from_remote,
}
use kwt.Url.Identity.Origins.{IsNetUrl}
use kwt.Url.Identity.Passes.{canonical_within_enough, canonical_repository_identity_again}
use kwt.Url.Identity.Fold.{fold_repository_identity_idem}
use kwt.Url.Identity.Remotes.{canonical_repository_identity_from_remote_lem}

-- Takes addresses that begin with https:// and have no user, query, fragment or escape.
abbrev parsed_rest : Text → Option (Text × Text) → ParsedUrl
parsed_rest rest none = record { scheme = codes "https"; user = none; host = rest; path = [] }
parsed_rest rest (some (authority, path)) = record {
  scheme = codes "https";
  user = none;
  host = authority;
  path = b'/' ∷ path;
}

small_parse : Text → Option ParsedUrl
unfolding has_prefix cut
small_parse s =
    if has_prefix s https then some (parsed_rest (drop 8 s) (cut b'/' (drop 8 s))) else none

abbrev small_net : NetUrl
unfolding small_parse
small_net = record { parse = small_parse; print = λ u. https ++ u.host ++ u.path }

-- A remote becomes a slug.
remote_run :
    canonical_repository_identity_from_remote small_net (codes "git@github.com:acme/App.git")
    ≡ some (codes "github.com/acme/App")
unfolding canonical_repository_identity_from_remote small_net
remote_run = refl

-- A slug with a port keeps a second `.git`, which another call takes away.
slug_run :
    (canonical_repository_identity small_net (codes "git.acme:8443/team/app.git.git")
      ≡ some (codes "git.acme:8443/team/app.git"))
    × (canonical_repository_identity small_net (codes "git.acme:8443/team/app.git")
        ≡ some (codes "git.acme:8443/team/app"))
unfolding canonical_repository_identity small_net
slug_run = (refl, refl)

fold_run :
    (fold_repository_identity (codes "GitHub.com:443/Acme/App") ≡ codes "github.com:443/acme/app")
    × (fold_repository_identity (codes "Git.Acme/Team/App") ≡ codes "git.acme/Team/App")
unfolding fold_repository_identity
fold_run = (refl, refl)

has_prefix-append : (s p : Text) → has_prefix s p ≡ true → s ≡ p ++ drop (length p) s
unfolding has_prefix
has_prefix-append s [] h = refl
has_prefix-append [] (p ∷ ps) h = ground arith
has_prefix-append (c ∷ s) (p ∷ ps) h = ground (arith, has_prefix-append s ps)

-- The rest of a text that is parsed.
parsed_from :
    (s : Text) (u : ParsedUrl)
    → small_parse s ≡ some u
    → (rest : Text) × ((s ≡ https ++ rest) × (u ≡ parsed_rest rest (cut b'/' rest)))
unfolding small_parse
parsed_from s u h = (drop 8 s, (has_prefix-append s https (ground arith), ground arith))

parsed_rest-parts :
    (rest : Text) (o : Option (Text × Text))
    → cut b'/' rest ≡ o
    → ((parsed_rest rest o).host ++ (parsed_rest rest o).path ≡ rest)
      × (((parsed_rest rest o).path ≡ []) ⊎ ((q : Text) × ((parsed_rest rest o).path ≡ b'/' ∷ q)))
parsed_rest-parts rest none h = (append-nil rest, inl refl)
parsed_rest-parts rest (some (a, p)) h = (sym (cut_sound b'/' rest a p h).0, inr (p, refl))

small_parse-https :
    (rest : Text) → small_parse (https ++ rest) ≡ some (parsed_rest rest (cut b'/' rest))
unfolding small_parse
small_parse-https rest = refl

parsed_parts :
    (s : Text) (u : ParsedUrl)
    → small_parse s ≡ some u
    → (rest : Text) × ((s ≡ https ++ rest)
        × ((u ≡ parsed_rest rest (cut b'/' rest))
            × ((u.host ++ u.path ≡ rest) × ((u.path ≡ []) ⊎ ((q : Text) × (u.path ≡ b'/' ∷ q))))))
parsed_parts s u h =
    let (rest, (whole, same)) = parsed_from s u h in
    (
      rest,
      (
        whole,
        (
          same,
          subst
              (λ v.
                (v.host ++ v.path ≡ rest) × ((v.path ≡ []) ⊎ ((q : Text) × (v.path ≡ b'/' ∷ q))))
              (sym same) (parsed_rest-parts rest (cut b'/' rest) refl),
        ),
      ),
    )

same_of_some : (u v : ParsedUrl) → some u ≡ some v → u ≡ v
same_of_some u v h = ground arith

small_parse_again :
    (s : Text) (u v : ParsedUrl)
    → small_parse s ≡ some u
    → small_parse (https ++ u.host ++ u.path) ≡ some v
    → v ≡ u
small_parse_again s u v h k =
    let (rest, (whole, (same, (parts, rooted)))) = parsed_parts s u h in
    same_of_some v u (
      sym k
      ∙ (ap (λ t. small_parse (https ++ t)) parts ∙ (small_parse-https rest ∙ ap some (sym same))))

https_parsed : (s : Text) (u : ParsedUrl) → small_parse (https ++ s) ≡ some u → u.host ++ u.path ≡ s
https_parsed s u h =
    ap (λ v. v.host ++ v.path)
      (same_of_some u (parsed_rest s (cut b'/' s)) (sym h ∙ small_parse-https s))
    ∙ (parsed_rest-parts s (cut b'/' s) refl).0

small_net-IsNetUrl : IsNetUrl small_net
unfolding small_net
small_net-IsNetUrl = record {
  authority_marked = λ s u h n.
      let (rest, (whole, (same, (parts, rooted)))) = parsed_parts s u h in
      omega (
        arith,
        ap length whole,
        ap length parts,
        length-append https rest,
        length-append u.host u.path,
      );
  nothing_added = λ s u h. inl (https_parsed s u h);
  rooted = λ s u h n. (parsed_parts s u h).1.1.1.1;
  reprinted = λ s u v h p k.
      let same = small_parse_again s u v h k in (ap (λ x. x.host) same, ap (λ x. x.path) same);
}

canonical_within_enough_example :
    canonical_within small_net 90 (codes "git@github.com:acme/App.git")
    ≡ canonical_repository_info small_net (codes "git@github.com:acme/App.git")
canonical_within_enough_example =
    canonical_within_enough small_net 90 (codes "git@github.com:acme/App.git") small_net-IsNetUrl
      (omega arith)

canonical_repository_identity_again_example :
    canonical_repository_identity small_net (codes "github.com/acme/App")
    ≡ some (codes "github.com/acme/App")
unfolding canonical_repository_identity small_net
canonical_repository_identity_again_example =
    canonical_repository_identity_again small_net (codes "git@github.com:acme/App.git")
      (codes "github.com/acme/App") small_net-IsNetUrl refl refl

canonical_repository_identity_from_remote_lem_example :
    ((first : Text) × (rest : Text) × (trim_space (codes "git@github.com:acme/App.git")
        ≡ first ++ b':' ∷ rest)
      × Lacks b':' first
      × Lacks b'/' first)
    × (canonical_repository_identity small_net (codes "github.com/acme/App")
        ≡ some (codes "github.com/acme/App"))
canonical_repository_identity_from_remote_lem_example =
    canonical_repository_identity_from_remote_lem small_net (codes "git@github.com:acme/App.git")
      (codes "github.com/acme/App") remote_run

fold_repository_identity_idem_example :
    fold_repository_identity (fold_repository_identity (codes "GitHub.com:443/Acme/App"))
    ≡ fold_repository_identity (codes "GitHub.com:443/Acme/App")
fold_repository_identity_idem_example =
    fold_repository_identity_idem (codes "GitHub.com:443/Acme/App")
