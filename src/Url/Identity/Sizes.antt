-- ===== src/Url/Identity/Sizes.antt =====
-- The size of a text that `CanonicalRepositoryInfo` looks at, and what the parts of its address have.
use kwt.Common.{
  ℕ, ◌+◌, ◌*◌, ◌≤◌, ◌<◌, ◌≡◌, refl, sym, ap, subst, ◌⊎◌, inl, inr, false, Option, none, some, List,
  [], ◌∷◌, ◌++◌, Text, arith, length, length-append, Result, ok, err, trim_space, trim_left_of,
  trim_right_of, split, join, cut_last, Option-cases, ◌>>=◌,
}
use kwt.Url.Authority.{Scp, scp_parts, whole_scp, scp_loop, split_scp_like_url}
use kwt.Url.Repository.{
  RepositoryInfo, UrlError, trim_last, validate_components, repository_info_from_parts, info_of,
}
use kwt.Url.Identity.Lengths.{
  Shortened, Shortened-append, Shortened-cons, Shortened-trans, trim_left_of-Shortened,
  trim_right_of-Shortened, trim_space-Shortened, join-split, join-trim_last-Shortened,
  scp_loop_sound, cut_last_sound,
}

abbrev scp_bit : Option (Text × Text) → ℕ
scp_bit none = 0
scp_bit (some _) = 1

-- Twice the length, and one more where a colon divides host and path.
abbrev pub size : Text → ℕ
unfolding scp_loop
size s = 2 * length s + scp_bit (scp_loop false s)

scp_bit-le : (o : Option (Text × Text)) → scp_bit o ≤ 1
scp_bit-le none = omega arith
scp_bit-le (some _) = omega arith

pub size-le : (s : Text) → size s ≤ 2 * length s + 1
unfolding size
size-le s = omega (arith, scp_bit-le (scp_loop false s))

pub size-lt : (t s : Text) → length t < length s → size t < size s
unfolding size
size-lt t s l = omega (arith, size-le t)

pub size-trim_space-le : (s : Text) → size (trim_space s) ≤ size s
size-trim_space-le s = elim (trim_space-Shortened s) [
  | inl e ↦ rw e (omega arith)
  | inr l ↦ omega (arith, size-lt (trim_space s) s l)
]

pub Shortened-le : (t s : Text) → Shortened t s → length t ≤ length s
Shortened-le t s (inl e) = rw e (omega arith)
Shortened-le t s (inr l) = omega arith

pub size-Shortened : (t s : Text) → Shortened t s → size t ≤ size s
size-Shortened t s (inl e) = rw e (omega arith)
size-Shortened t s (inr l) = omega (arith, size-lt t s l)

then_ok :
    (m : Result UrlError Unit) (x info : RepositoryInfo) → (m >>= λ _. ok x) ≡ ok info → x ≡ info
then_ok (ok tt) x info h = ground arith
then_ok (err e) x info h = ground arith

pub info-full_path :
    (host : Text) (parts : List Text) (info : RepositoryInfo)
    → repository_info_from_parts host parts ≡ ok info
    → info.full_path ≡ host ++ b'/' ∷ join b'/' (trim_last parts)
unfolding repository_info_from_parts trim_last join
info-full_path host [] info h = ground arith
info-full_path host (part ∷ []) info h = ground arith
info-full_path host (part ∷ next ∷ parts) info h = sym (
    ap (λ i. i.full_path)
      (then_ok (validate_components (trim_last (part ∷ next ∷ parts)))
        (info_of host (trim_last (part ∷ next ∷ parts))) info h))

-- The identity of a host and a rooted path is those two, or shorter.
pub info-Shortened :
    (host path : Text) (info : RepositoryInfo)
    → (path ≡ []) ⊎ ((q : Text) × (path ≡ b'/' ∷ q))
    → repository_info_from_parts host (split b'/' (trim_right_of b'/' (trim_left_of b'/' path)))
      ≡ ok info
    → Shortened info.full_path (host ++ path)
unfolding trim_left_of trim_right_of split repository_info_from_parts
info-Shortened host path info (inl e) h = ground arith
info-Shortened host path info (inr (q, e)) h =
    let inner = trim_right_of b'/' (trim_left_of b'/' q) in
    let path_shortened =
      Shortened-trans (join b'/' (trim_last (split b'/' inner))) inner q
        (subst (Shortened (join b'/' (trim_last (split b'/' inner)))) (join-split b'/' inner)
          (join-trim_last-Shortened (split b'/' inner)))
        (Shortened-trans inner (trim_left_of b'/' q) q
          (trim_right_of-Shortened b'/' (trim_left_of b'/' q)) (trim_left_of-Shortened b'/' q)) in
    rw (info-full_path host (split b'/' inner) info (rw e at h), e)
      (Shortened-append host (b'/' ∷ join b'/' (trim_last (split b'/' inner))) (b'/' ∷ q)
        (Shortened-cons b'/' (join b'/' (trim_last (split b'/' inner))) q path_shortened))

Shortened-both :
    (host a t s : Text)
    → Shortened host a
    → Shortened t s
    → Shortened (host ++ b'/' ∷ t) (a ++ b'/' ∷ s)
Shortened-both host a t s (inl e) k =
    rw e (Shortened-append a (b'/' ∷ t) (b'/' ∷ s) (Shortened-cons b'/' t s k))
Shortened-both host a t s (inr l) k =
    inr
      (omega (arith, length-append host (b'/' ∷ t), length-append a (b'/' ∷ s), Shortened-le t s k))

scp_bit-some : (o : Option (Text × Text)) (x : Text × Text) → o ≡ some x → scp_bit o ≡ 1
scp_bit-some o x e = rw e refl

slashed-size :
    (raw a p host : Text)
    → scp_loop false raw ≡ some (a, p)
    → Shortened host a
    → size (host ++ b'/' ∷ trim_left_of b'/' p) < size raw
unfolding size
slashed-size raw a p host e k =
    let (whole, no_colon) = scp_loop_sound raw a p e in
    elim (Shortened-both host a (trim_left_of b'/' p) p k (trim_left_of-Shortened b'/' p)) [
      | inl same ↦
          rw (same, no_colon p, e, whole)
            (omega (arith, length-append a (b'/' ∷ p), length-append a (b':' ∷ p)))
      | inr l ↦ omega (
        arith,
        size-le (host ++ b'/' ∷ trim_left_of b'/' p),
        length-append a (b'/' ∷ p),
        length-append a (b':' ∷ p),
        ap length whole,
        scp_bit-some (scp_loop false raw) (a, p) e,
      )
    ]

whole_scp-eq : (s scp : Scp) → whole_scp s ≡ some scp → s ≡ scp
unfolding whole_scp
whole_scp-eq s scp h = ground arith

scp_parts-size :
    (raw a p : Text) (scp : Scp) (o : Option (Text × Text))
    → scp_loop false raw ≡ some (a, p)
    → cut_last b'@' a ≡ o
    → whole_scp (scp_parts a p o) ≡ some scp
    → size (scp.host ++ b'/' ∷ trim_left_of b'/' scp.remote_path) < size raw
scp_parts-size raw a p scp none e c h =
    subst (λ s. size (s.host ++ b'/' ∷ trim_left_of b'/' s.remote_path) < size raw)
      (whole_scp-eq (scp_parts a p none) scp h) (slashed-size raw a p a e (inl refl))
scp_parts-size raw a p scp (some (user, host)) e c h =
    subst (λ s. size (s.host ++ b'/' ∷ trim_left_of b'/' s.remote_path) < size raw)
      (whole_scp-eq (scp_parts a p (some (user, host))) scp h)
      (slashed-size raw a p host e (
        inr (
          omega (
            arith,
            ap length (cut_last_sound b'@' a user host c),
            length-append user (b'@' ∷ host),
          ))))

pub scp-size :
    (raw : Text) (scp : Scp)
    → split_scp_like_url raw ≡ some scp
    → size (scp.host ++ b'/' ∷ trim_left_of b'/' scp.remote_path) < size raw
unfolding split_scp_like_url
scp-size raw scp h = elim (Option-cases (scp_loop false raw)) [
  | inl e ↦ ground arith
  | inr ((a, p), e) ↦ scp_parts-size raw a p scp (cut_last b'@' a) e refl (ground arith)
]
