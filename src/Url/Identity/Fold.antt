-- ===== src/Url/Identity/Fold.antt =====
-- `FoldRepositoryIdentity` twice.
use kwt.Common.{
  ℕ, ◌≡◌, refl, sym, ap, ◌∙◌, subst, Bool, true, false, Option, none, some, [], ◌∷◌, ◌++◌, Text,
  arith, if-elim, if◌then◌else◌, cut, cut-append, cut_sound, cut-Lacks, cut-none, Lacks, is_space,
  lower, to_lower, to_lower_idem, trim_right, trim_space,
}
use kwt.Url.Authority.{host_without_port, one_of}
use kwt.Url.Identity.{
  case_insensitive_repository_path_hosts, fold_remainder, fold_cut, fold_repository_identity,
}
use kwt.Common.Trimming.{
  FirstIsNoSpace, ended, trim_right-cons, trim_left_first, trim_space-FirstIsNoSpace,
  trim_right-trim_space,
}

-- Texts with spaces at the same places.
abbrev SameSpaces : Text → Text → Type 0
SameSpaces [] [] = Unit
SameSpaces [] (d ∷ t) = ⊥
SameSpaces (c ∷ s) [] = ⊥
SameSpaces (c ∷ s) (d ∷ t) = (is_space c ≡ is_space d) × SameSpaces s t

SameSpaces-refl : (s : Text) → SameSpaces s s
SameSpaces-refl [] = tt
SameSpaces-refl (c ∷ s) = (refl, SameSpaces-refl s)

lower-is_space : (c : ℕ) → is_space c ≡ is_space (lower c)
lower-is_space c = ground arith

to_lower-SameSpaces : (s : Text) → SameSpaces s (to_lower s)
to_lower-SameSpaces [] = tt
to_lower-SameSpaces (c ∷ s) = (lower-is_space c, to_lower-SameSpaces s)

SameSpaces-append :
    (a b s t : Text) → SameSpaces a b → SameSpaces s t → SameSpaces (a ++ s) (b ++ t)
SameSpaces-append [] [] s t h k = k
SameSpaces-append [] (d ∷ b) s t h k = elim h [ ]
SameSpaces-append (c ∷ a) [] s t h k = elim h [ ]
SameSpaces-append (c ∷ a) (d ∷ b) s t h k = (h.0, SameSpaces-append a b s t h.1 k)

FirstIsNoSpace-same : (s t : Text) → SameSpaces s t → FirstIsNoSpace s → FirstIsNoSpace t
FirstIsNoSpace-same [] [] h k = tt
FirstIsNoSpace-same [] (d ∷ t) h k = elim h [ ]
FirstIsNoSpace-same (c ∷ s) [] h k = elim h [ ]
FirstIsNoSpace-same (c ∷ s) (d ∷ t) h k = sym h.0 ∙ k

ended-tail : (c : ℕ) (r s : Text) → ended c r ≡ c ∷ s → r ≡ s
ended-tail c [] s e =
    if-elim (λ x. x ≡ c ∷ s → [] ≡ s) (is_space c) [] (c ∷ []) (λ _ k. ground arith)
      (λ _ k. ground arith) e
ended-tail c (d ∷ r) s e = ground arith

trim_right-same : (s t : Text) → SameSpaces s t → trim_right s ≡ s → trim_right t ≡ t
unfolding trim_right
trim_right-same [] [] h e = refl
trim_right-same [] (d ∷ t) h e = elim h [ ]
trim_right-same (c ∷ s) [] h e = elim h [ ]
trim_right-same (c ∷ []) (d ∷ []) h e =
    if-elim (λ r. r ≡ d ∷ []) (is_space d) [] (d ∷ []) (λ k. ground arith) (λ k. refl)
trim_right-same (c ∷ []) (d ∷ x ∷ t) h e = elim h.1 [ ]
trim_right-same (c ∷ x ∷ s) (d ∷ []) h e = elim h.1 [ ]
trim_right-same (c ∷ x ∷ s) (d ∷ y ∷ t) h e =
    let tail = ended-tail c (trim_right (x ∷ s)) (x ∷ s) (sym (trim_right-cons c (x ∷ s)) ∙ e) in
    trim_right-cons d (y ∷ t) ∙ ap (ended d) (trim_right-same (x ∷ s) (y ∷ t) h.1 tail)

-- A text with the spaces of a trimmed one is trimmed.
trim_space-same : (s t : Text) → SameSpaces (trim_space s) t → trim_space t ≡ t
unfolding trim_space
trim_space-same s t h =
    ap trim_right
      (trim_left_first t (FirstIsNoSpace-same (trim_space s) t h (trim_space-FirstIsNoSpace s)))
    ∙ trim_right-same (trim_space s) t h (trim_right-trim_space s)

fold_remainder-SameSpaces : (a r : Text) → SameSpaces r (fold_remainder a r)
unfolding fold_remainder
fold_remainder-SameSpaces a r =
    if-elim (SameSpaces r) (one_of (host_without_port a) case_insensitive_repository_path_hosts)
      (to_lower r) r (λ _. to_lower-SameSpaces r) (λ _. SameSpaces-refl r)

lowered_twice :
    (b : Bool) (r : Text)
    → (if b then to_lower (if b then to_lower r else r) else (if b then to_lower r else r))
      ≡ (if b then to_lower r else r)
lowered_twice true r = to_lower_idem r
lowered_twice false r = refl

fold_remainder_idem : (a r : Text) → fold_remainder a (fold_remainder a r) ≡ fold_remainder a r
unfolding fold_remainder
fold_remainder_idem a r =
    lowered_twice (one_of (host_without_port a) case_insensitive_repository_path_hosts) r

fold_cut-SameSpaces :
    (s : Text) (o : Option (Text × Text)) → cut b'/' s ≡ o → SameSpaces s (fold_cut s o)
unfolding fold_cut
fold_cut-SameSpaces s none e = to_lower-SameSpaces s
fold_cut-SameSpaces s (some (a, r)) e =
    let (whole, lacks) = cut_sound b'/' s a r e in
    subst (λ x. SameSpaces x (fold_cut x (some (a, r)))) (sym whole)
      (SameSpaces-append a (to_lower a) (b'/' ∷ r) (b'/' ∷ fold_remainder (to_lower a) r)
        (to_lower-SameSpaces a) (refl, fold_remainder-SameSpaces (to_lower a) r))

to_lower-Lacks : (a : Text) → Lacks b'/' a → Lacks b'/' (to_lower a)
to_lower-Lacks [] h = tt
to_lower-Lacks (c ∷ a) h = ((λ e. h.0 (ground arith)), to_lower-Lacks a h.1)

fold_cut_idem :
    (s : Text) (o : Option (Text × Text))
    → cut b'/' s ≡ o
    → fold_cut (fold_cut s o) (cut b'/' (fold_cut s o)) ≡ fold_cut s o
unfolding fold_cut
fold_cut_idem s none e =
    ap (fold_cut (to_lower s)) (cut-Lacks b'/' (to_lower s) (to_lower-Lacks s (cut-none b'/' s e)))
    ∙ to_lower_idem s
fold_cut_idem s (some (a, r)) e =
    let folded = fold_remainder (to_lower a) r in
    ap (fold_cut (to_lower a ++ b'/' ∷ folded))
      (cut-append b'/' (to_lower a) folded (to_lower-Lacks a (cut_sound b'/' s a r e).1))
    ∙ (ap (λ b. b ++ b'/' ∷ fold_remainder b folded) (to_lower_idem a)
        ∙ ap (λ q. to_lower a ++ b'/' ∷ q) (fold_remainder_idem (to_lower a) r))

-- Folding an identity a second time changes nothing: authorities and ports, the hosts that ignore case
-- and those that do not, and spaces around included.
pub fold_repository_identity_idem :
    (identity : Text)
    → fold_repository_identity (fold_repository_identity identity)
      ≡ fold_repository_identity identity
unfolding fold_repository_identity
fold_repository_identity_idem identity =
    let s = trim_space identity in
    rw
      (trim_space-same identity (fold_cut s (cut b'/' s)) (fold_cut-SameSpaces s (cut b'/' s) refl))
      (fold_cut_idem s (cut b'/' s) refl)
