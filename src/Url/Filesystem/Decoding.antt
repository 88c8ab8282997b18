-- ===== src/Url/Filesystem/Decoding.antt =====
-- Reading a component of a path back, and what may stand in one.
use kwt.Common.{
  ℕ, zero, suc, ==_iff, ◌+◌, ◌*◌, ◌-◌, ◌/◌, ◌%◌, ◌<◌, ◌≡◌, ◌≢◌, refl, sym, ap, ◌∙◌, Bool, true,
  false, ◌||◌, Option, none, some, [], ◌∷◌, ◌++◌, Text, arith, Bool-cases, inl, inr, if-elim,
  if◌then◌else◌, ◌==◌, leb, All, cut, get_or, Lacks, cut-append, cut_sound, cut-Lacks, All-mono,
  subst,
}
use kwt.Url.Filesystem.{
  is_unreserved, hex, encode_filesystem_component, filesystem_path, repository_info_for_filesystem,
}
use kwt.Url.Repository.{RepositoryInfo}

abbrev pub IsByte : ℕ → Type 0
IsByte c = c < 256

-- The value of a hexadecimal digit.
abbrev digit_value : ℕ → ℕ
digit_value d = if leb d b'9' then d - b'0' else d - 55

-- The text that percent escapes stand for.
pub decode : Text → Text
decode [] = []
decode (c ∷ []) = c ∷ []
decode (c ∷ d ∷ []) = c ∷ decode (d ∷ [])
decode (c ∷ d ∷ e ∷ s) =
    let escaped = (digit_value d * 16 + digit_value e) ∷ decode s in
    let kept = c ∷ decode (d ∷ e ∷ s) in if c == b'%' then escaped else kept

decode-cons : (c : ℕ) (s : Text) → (c == b'%') ≡ false → decode (c ∷ s) ≡ c ∷ decode s
unfolding decode
decode-cons c [] h = refl
decode-cons c (d ∷ []) h = refl
decode-cons c (d ∷ e ∷ s) h = rw h refl

-- A test that holds of the first numbers, decided by running it.
abbrev holds_below : (ℕ → Bool) → ℕ → Bool
holds_below test zero = true
holds_below test (suc n) = if test n then holds_below test n else false

holds-below : (test : ℕ → Bool) (n i : ℕ) → holds_below test n ≡ true → i < n → test i ≡ true
holds-below test zero i h l = ground arith
holds-below test (suc n) i h l = elim (Bool-cases (i == n)) [
  | inl e ↦ rw ((==_iff i n).0 e) (ground arith)
  | inr ne ↦ holds-below test n i (ground arith) (ground arith)
]

digit-eq : (n : ℕ) → n < 16 → digit_value (get_or hex n 0) ≡ n
digit-eq n h =
    (==_iff (digit_value (get_or hex n 0)) n).0
      (holds-below (λ i. digit_value (get_or hex i 0) == i) 16 n refl h)

-- Any component of bytes is found again in its encoding.
pub decode-encode_filesystem_component :
    (component : Text)
    → All IsByte component
    → decode (encode_filesystem_component component) ≡ component
unfolding encode_filesystem_component decode
decode-encode_filesystem_component [] h = refl
decode-encode_filesystem_component (c ∷ s) h =
    if-elim (λ t. decode t ≡ c ∷ s) (is_unreserved c) (c ∷ encode_filesystem_component s)
      (b'%' ∷ get_or hex (c / 16) 0 ∷ get_or hex (c % 16) 0 ∷ encode_filesystem_component s)
      (λ k.
        decode-cons c (encode_filesystem_component s) (ground arith)
        ∙ ap (◌∷◌ c) (decode-encode_filesystem_component s h.1))
      (λ k.
        rw
          (
            digit-eq (c / 16) (omega (arith, h.0)),
            digit-eq (c % 16) (omega arith),
            decode-encode_filesystem_component s h.1,
          )
          (ap (λ d. d ∷ s) (omega arith)))

-- What is written is unreserved, a percent sign or a hexadecimal digit.
encode-char : (n : ℕ) → n < 16 → (is_unreserved (get_or hex n 0)) ≡ true
encode-char n h = holds-below (λ i. is_unreserved (get_or hex i 0)) 16 n refl h

abbrev pub is_filesystem_char : ℕ → Bool
is_filesystem_char c = is_unreserved c || c == b'%'

pub encode_filesystem_component-All :
    (component : Text)
    → All IsByte component
    → All (λ c. is_filesystem_char c ≡ true) (encode_filesystem_component component)
unfolding encode_filesystem_component
encode_filesystem_component-All [] h = tt
encode_filesystem_component-All (c ∷ s) h =
    if-elim (All (λ d. is_filesystem_char d ≡ true)) (is_unreserved c)
      (c ∷ encode_filesystem_component s)
      (b'%' ∷ get_or hex (c / 16) 0 ∷ get_or hex (c % 16) 0 ∷ encode_filesystem_component s)
      (λ k. (rw k refl, encode_filesystem_component-All s h.1))
      (λ k. (
        refl,
        (
          rw (encode-char (c / 16) (omega (arith, h.0))) refl,
          (rw (encode-char (c % 16) (omega arith)) refl, encode_filesystem_component-All s h.1),
        ),
      ))

encode-Lacks :
    (component : Text) → All IsByte component → Lacks b'/' (encode_filesystem_component component)
encode-Lacks component h =
    All-mono (λ c. is_filesystem_char c ≡ true) (λ c. c ≢ b'/')
      (encode_filesystem_component component) (λ c k e. ground arith)
      (encode_filesystem_component-All component h)

-- The identity that a path below the base directory stands for.
restore_cut : Text → Option (Text × Text) → Text
restore_cut path none = decode path
restore_cut path (some (authority, remainder)) = decode authority ++ b'/' ∷ remainder

All-left : (a b : Text) → All IsByte (a ++ b) → All IsByte a
All-left [] b h = tt
All-left (c ∷ a) b h = (h.0, All-left a b h.1)

restore-filesystem_path :
    (full_path : Text) (o : Option (Text × Text))
    → cut b'/' full_path ≡ o
    → All IsByte full_path
    → restore_cut (filesystem_path full_path o) (cut b'/' (filesystem_path full_path o)) ≡ full_path
unfolding restore_cut cut filesystem_path
restore-filesystem_path full_path none e h =
    rw (cut-Lacks b'/' (encode_filesystem_component full_path) (encode-Lacks full_path h))
      (decode-encode_filesystem_component full_path h)
restore-filesystem_path full_path (some (a, r)) e h =
    let (whole, lacks) = cut_sound b'/' full_path a r e in
    let bytes = All-left a (b'/' ∷ r) (subst (All IsByte) whole h) in
    rw
      (
        cut-append b'/' (encode_filesystem_component a) r (encode-Lacks a bytes),
        decode-encode_filesystem_component a bytes,
      )
      (sym whole)

-- Two repositories, with identities of bytes, that are kept under the same path have the same identity:
-- encoding the authority makes no two of them meet.
pub repository_info_for_filesystem_injective :
    (left right : RepositoryInfo)
    → All IsByte left.full_path
    → All IsByte right.full_path
    → (repository_info_for_filesystem left).full_path
      ≡ (repository_info_for_filesystem right).full_path
    → left.full_path ≡ right.full_path
unfolding repository_info_for_filesystem
repository_info_for_filesystem_injective left right hl hr e =
    sym (restore-filesystem_path left.full_path (cut b'/' left.full_path) refl hl)
    ∙ (ap (λ p. restore_cut p (cut b'/' p)) e
        ∙ restore-filesystem_path right.full_path (cut b'/' right.full_path) refl hr)
