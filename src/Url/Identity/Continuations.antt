-- ===== src/Url/Identity/Continuations.antt =====
-- The part of `CanonicalRepositoryInfo` that goes on with another pass, whatever that pass does.
use kwt.Common.{
  ◌≡◌, ◌≢◌, refl, ap, ◌∙◌, subst, ◌⊎◌, inl, inr, Bool, true, false, Option, none, some, [], Text,
  arith, if◌then◌else◌, ◌=?◌, eq_sound, eq_complete, Result, ok, err, trim_space,
}
use kwt.Url.Repository.{RepositoryInfo, UrlError}
use kwt.Url.Identity.{agreeing, settle, stable, slug_or}

-- Two continuations that agree on the identity that was parsed.
pub slug_or-agree :
    (f g : Text → Option RepositoryInfo) (s : Text) (parsed : Result UrlError RepositoryInfo)
    (slug : Option RepositoryInfo)
    → ((info : RepositoryInfo)
        → parsed ≡ ok info
        → info.full_path ≢ s
        → f info.full_path ≡ g info.full_path)
    → slug_or f s parsed slug ≡ slug_or g s parsed slug
unfolding stable slug_or agreeing settle
slug_or-agree f g s parsed (some info) h = refl
slug_or-agree f g s (err e) none h = refl
slug_or-agree f g s (ok info) none h =
    ap (λ o. if trim_space info.full_path =? [] then none else o)
      (settle-agree (info.full_path =? s)
        (λ ne. h info refl (λ same. ground (arith, eq_complete info.full_path s same))))
  where
    settle-agree :
        (b : Bool)
        → (b ≡ false → f info.full_path ≡ g info.full_path)
        → settle b f info ≡ settle b g info
    settle-agree true k = refl
    settle-agree false k = ap (agreeing info) (k refl)

agreeing-later :
    (info i : RepositoryInfo) (o p : Option RepositoryInfo)
    → ((j : RepositoryInfo) → o ≡ some j → p ≡ some j)
    → agreeing info o ≡ some i
    → agreeing info p ≡ some i
unfolding agreeing
agreeing-later info i none p k e = ground arith
agreeing-later info i (some j) p k e = rw (k j refl) e

settle-later :
    (b : Bool) (f g : Text → Option RepositoryInfo) (info i : RepositoryInfo)
    → ((y : Text) (j : RepositoryInfo) → f y ≡ some j → g y ≡ some j)
    → settle b f info ≡ some i
    → settle b g info ≡ some i
unfolding agreeing settle
settle-later true f g info i k e = e
settle-later false f g info i k e =
    agreeing-later info i (f info.full_path) (g info.full_path) (k info.full_path) e

unless-later :
    (b : Bool) (o p : Option RepositoryInfo) (i : RepositoryInfo)
    → (o ≡ some i → p ≡ some i)
    → (if b then none else o) ≡ some i
    → (if b then none else p) ≡ some i
unless-later true o p i k e = e
unless-later false o p i k e = k e

-- A continuation that finds no less.
pub slug_or-later :
    (f g : Text → Option RepositoryInfo) (s : Text) (parsed : Result UrlError RepositoryInfo)
    (slug : Option RepositoryInfo) (i : RepositoryInfo)
    → ((y : Text) (j : RepositoryInfo) → f y ≡ some j → g y ≡ some j)
    → slug_or f s parsed slug ≡ some i
    → slug_or g s parsed slug ≡ some i
unfolding stable slug_or
slug_or-later f g s parsed (some info) i k e = e
slug_or-later f g s (err x) none i k e = e
slug_or-later f g s (ok info) none i k e =
    unless-later (trim_space info.full_path =? []) (settle (info.full_path =? s) f info)
      (settle (info.full_path =? s) g info) i (settle-later (info.full_path =? s) f g info i k) e

-- Where an information comes from that is not a slug's.
abbrev pub Comes : (Text → Option RepositoryInfo) → Text → RepositoryInfo → Type 0
Comes f s i =
    (i.full_path ≡ s)
    ⊎ ((j : RepositoryInfo) × ((f i.full_path ≡ some j) × (j.full_path ≡ i.full_path)))

agreeing-Comes :
    (f : Text → Option RepositoryInfo) (s : Text) (info i : RepositoryInfo)
    (o : Option RepositoryInfo)
    → f info.full_path ≡ o
    → agreeing info o ≡ some i
    → Comes f s i
unfolding agreeing
agreeing-Comes f s info i none o e = ground arith
agreeing-Comes f s info i (some j) o e =
    let (same, path) = agreed e in
    inr (j, (subst (λ x. f x.full_path ≡ some j) same o, path ∙ ap (λ x. x.full_path) same))
  where
    agreed : agreeing info (some j) ≡ some i → (info ≡ i) × (j.full_path ≡ info.full_path)
    agreed h = ground (arith, eq_sound j.full_path info.full_path)

settle-Comes :
    (b : Bool) (f : Text → Option RepositoryInfo) (s : Text) (info i : RepositoryInfo)
    → (info.full_path =? s) ≡ b
    → settle b f info ≡ some i
    → Comes f s i
unfolding agreeing settle
settle-Comes true f s info i c e = inl (ground (arith, eq_sound info.full_path s))
settle-Comes false f s info i c e = agreeing-Comes f s info i (f info.full_path) refl e

unless-Comes :
    (b : Bool) (f : Text → Option RepositoryInfo) (s : Text) (i : RepositoryInfo)
    (o : Option RepositoryInfo)
    → (o ≡ some i → Comes f s i)
    → (if b then none else o) ≡ some i
    → Comes f s i
unless-Comes true f s i o k e = ground arith
unless-Comes false f s i o k e = k e

pub slug_or-Comes :
    (f : Text → Option RepositoryInfo) (s : Text) (parsed : Result UrlError RepositoryInfo)
    (i : RepositoryInfo)
    → slug_or f s parsed none ≡ some i
    → Comes f s i
unfolding stable slug_or
slug_or-Comes f s (err x) i e = ground arith
slug_or-Comes f s (ok info) i e =
    unless-Comes (trim_space info.full_path =? []) f s i (settle (info.full_path =? s) f info)
      (settle-Comes (info.full_path =? s) f s info i refl) e
