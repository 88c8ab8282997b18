-- ===== src/Url/Identity/Lengths.antt =====
-- How long the identities are that internal/url makes of an address.
use kwt.Common.{
  ℕ, ◌<◌, ◌≡◌, refl, sym, ap, subst, ◌∙◌, ◌⊎◌, inl, inr, Bool, true, false, Option, none, some,
  List, [], ◌∷◌, ◌++◌, Text, codes, arith, ==_iff, if-elim, if◌then◌else◌, ◌==◌, ◌=?◌, length,
  trim_left, trim_right, trim_space, trim_left_of, trim_right_of, trim_suffix, split, join,
  onto_first, end_without, is_space, cut_last,
}
use kwt.Url.Repository.{trim_last}
use kwt.Url.Authority.{scp_loop}

-- The same text, or a shorter one.
abbrev pub Shortened : Text → Text → Type 0
Shortened t s = (t ≡ s) ⊎ (length t < length s)

pub Shortened-cons : (c : ℕ) (t s : Text) → Shortened t s → Shortened (c ∷ t) (c ∷ s)
Shortened-cons c t s (inl e) = inl (ap (◌∷◌ c) e)
Shortened-cons c t s (inr l) = inr (omega (arith, l))

pub Shortened-trans : (t s r : Text) → Shortened t s → Shortened s r → Shortened t r
Shortened-trans t s r (inl e) k = rw e k
Shortened-trans t s r (inr l) (inl e) = inr (omega (arith, ap length e))
Shortened-trans t s r (inr l) (inr k) = inr (omega arith)

pub Shortened-append : (a t s : Text) → Shortened t s → Shortened (a ++ t) (a ++ s)
Shortened-append [] t s h = h
Shortened-append (c ∷ a) t s h = Shortened-cons c (a ++ t) (a ++ s) (Shortened-append a t s h)

pub shorter-suc : (c : ℕ) (t s : Text) → Shortened t s → length t < length (c ∷ s)
shorter-suc c t s (inl e) = rw e (omega arith)
shorter-suc c t s (inr l) = omega arith

trim_left-Shortened : (s : Text) → Shortened (trim_left s) s
unfolding trim_left
trim_left-Shortened [] = inl refl
trim_left-Shortened (c ∷ s) =
    if-elim (λ t. Shortened t (c ∷ s)) (is_space c) (trim_left s) (c ∷ s)
      (λ h. inr (shorter-suc c (trim_left s) s (trim_left-Shortened s))) (λ h. inl refl)

trim_right-Shortened : (s : Text) → Shortened (trim_right s) s
unfolding trim_right
trim_right-Shortened [] = inl refl
trim_right-Shortened (c ∷ s) = step (trim_right s) (trim_right-Shortened s)
  where
    step :
        (r : Text)
        → Shortened r s
        → Shortened (elim r [ [] ↦ if is_space c then [] else c ∷ [] | d ∷ q ↦ c ∷ d ∷ q ]) (c ∷ s)
    step [] h =
        if-elim (λ t. Shortened t (c ∷ s)) (is_space c) [] (c ∷ []) (λ _. inr (omega arith))
          (λ _. Shortened-cons c [] s h)
    step (d ∷ q) h = Shortened-cons c (d ∷ q) s h

pub trim_space-Shortened : (s : Text) → Shortened (trim_space s) s
unfolding trim_space
trim_space-Shortened s =
    Shortened-trans (trim_right (trim_left s)) (trim_left s) s (trim_right-Shortened (trim_left s))
      (trim_left-Shortened s)

pub trim_left_of-Shortened : (c : ℕ) (s : Text) → Shortened (trim_left_of c s) s
unfolding trim_left_of
trim_left_of-Shortened c [] = inl refl
trim_left_of-Shortened c (d ∷ s) =
    if-elim (λ t. Shortened t (d ∷ s)) (d == c) (trim_left_of c s) (d ∷ s)
      (λ h. inr (shorter-suc d (trim_left_of c s) s (trim_left_of-Shortened c s))) (λ h. inl refl)

end_without-Shortened :
    (c d : ℕ) (t s : Text) → Shortened t s → Shortened (end_without c d t) (d ∷ s)
end_without-Shortened c d [] s h =
    if-elim (λ t. Shortened t (d ∷ s)) (d == c) [] (d ∷ []) (λ _. inr (omega arith))
      (λ _. Shortened-cons d [] s h)
end_without-Shortened c d (e ∷ t) s h = Shortened-cons d (e ∷ t) s h

pub trim_right_of-Shortened : (c : ℕ) (s : Text) → Shortened (trim_right_of c s) s
unfolding trim_right_of
trim_right_of-Shortened c [] = inl refl
trim_right_of-Shortened c (d ∷ s) =
    end_without-Shortened c d (trim_right_of c s) s (trim_right_of-Shortened c s)

pub trim_suffix-Shortened : (suffix s : Text) → Shortened (trim_suffix suffix s) s
unfolding trim_suffix
trim_suffix-Shortened suffix [] = inl refl
trim_suffix-Shortened suffix (c ∷ s) =
    if-elim (λ t. Shortened t (c ∷ s)) ((c ∷ s) =? suffix) [] (c ∷ trim_suffix suffix s)
      (λ h. inr (omega arith))
      (λ h. Shortened-cons c (trim_suffix suffix s) s (trim_suffix-Shortened suffix s))

join-onto_first : (sep c : ℕ) (fs : List Text) → join sep (onto_first c fs) ≡ c ∷ join sep fs
unfolding join
join-onto_first sep c [] = refl
join-onto_first sep c (f ∷ []) = refl
join-onto_first sep c (f ∷ g ∷ fs) = refl

join-empty-onto_first :
    (sep c : ℕ) (fs : List Text)
    → join sep ([] ∷ onto_first c fs) ≡ sep ∷ join sep (onto_first c fs)
unfolding join
join-empty-onto_first sep c [] = refl
join-empty-onto_first sep c (f ∷ fs) = refl

join_empty : (sep : ℕ) (s : Text) → join sep ([] ∷ split sep s) ≡ sep ∷ join sep (split sep s)
unfolding join split
join_empty sep [] = refl
join_empty sep (c ∷ s) =
    if-elim (λ fs. join sep ([] ∷ fs) ≡ sep ∷ join sep fs) (c == sep) ([] ∷ split sep s)
      (onto_first c (split sep s)) (λ _. refl) (λ _. join-empty-onto_first sep c (split sep s))

-- Joining what was split.
pub join-split : (sep : ℕ) (s : Text) → join sep (split sep s) ≡ s
unfolding join split
join-split sep [] = refl
join-split sep (c ∷ s) =
    if-elim (λ fs. join sep fs ≡ c ∷ s) (c == sep) ([] ∷ split sep s) (onto_first c (split sep s))
      (λ h.
        join_empty sep s
        ∙ (ap (◌∷◌ sep) (join-split sep s) ∙ ap (λ d. d ∷ s) (sym ((==_iff c sep).0 h))))
      (λ h. join-onto_first sep c (split sep s) ∙ ap (◌∷◌ c) (join-split sep s))

pub join-trim_last-Shortened :
    (parts : List Text) → Shortened (join b'/' (trim_last parts)) (join b'/' parts)
unfolding join trim_last
join-trim_last-Shortened [] = inl refl
join-trim_last-Shortened (f ∷ []) = trim_suffix-Shortened (codes ".git") f
join-trim_last-Shortened (f ∷ g ∷ []) =
    Shortened-append f (b'/' ∷ trim_suffix (codes ".git") g) (b'/' ∷ g) (
      Shortened-cons b'/' (trim_suffix (codes ".git") g) g (trim_suffix-Shortened (codes ".git") g))
join-trim_last-Shortened (f ∷ g ∷ h ∷ fs) =
    Shortened-append f (b'/' ∷ join b'/' (trim_last (g ∷ h ∷ fs))) (b'/' ∷ join b'/' (g ∷ h ∷ fs)) (
      Shortened-cons b'/' (join b'/' (trim_last (g ∷ h ∷ fs))) (join b'/' (g ∷ h ∷ fs))
        (join-trim_last-Shortened (g ∷ h ∷ fs)))

abbrev Splits : Bool → Text → Option (Text × Text) → Type 0
Splits b raw none = Unit
Splits b raw (some (a, p)) =
    (raw ≡ a ++ b':' ∷ p) × ((t : Text) → scp_loop b (a ++ b'/' ∷ t) ≡ none)

scp_loop-Splits : (b : Bool) (raw : Text) → Splits b raw (scp_loop b raw)
unfolding scp_loop
scp_loop-Splits b [] = tt
scp_loop-Splits true (c ∷ s) = ground (arith, scp_loop-Splits true s, scp_loop-Splits false s)
scp_loop-Splits false (c ∷ s) = ground (arith, scp_loop-Splits true s, scp_loop-Splits false s)

-- Behind the colon's place there is no other one.
pub scp_loop_sound :
    (raw a p : Text)
    → scp_loop false raw ≡ some (a, p)
    → (raw ≡ a ++ b':' ∷ p) × ((t : Text) → scp_loop false (a ++ b'/' ∷ t) ≡ none)
scp_loop_sound raw a p h = subst (Splits false raw) h (scp_loop-Splits false raw)

abbrev Halves : ℕ → Text → Option (Text × Text) → Type 0
Halves c s none = Unit
Halves c s (some (a, b)) = s ≡ a ++ c ∷ b

cut_last-Halves : (c : ℕ) (s : Text) → Halves c s (cut_last c s)
unfolding cut_last
cut_last-Halves c [] = tt
cut_last-Halves c (d ∷ s) = step (cut_last c s) (cut_last-Halves c s)
  where
    step :
        (o : Option (Text × Text))
        → Halves c s o
        → Halves c (d ∷ s) (elim o [
          | some (a, b) ↦ some (d ∷ a, b)
          | none ↦ if d == c then some ([], s) else none
        ])
    step none h =
        if-elim (Halves c (d ∷ s)) (d == c) (some ([], s)) none
          (λ e. ap (λ x. x ∷ s) ((==_iff d c).0 e)) (λ _. tt)
    step (some (a, b)) h = ap (◌∷◌ d) h

pub cut_last_sound : (c : ℕ) (s a b : Text) → cut_last c s ≡ some (a, b) → s ≡ a ++ c ∷ b
cut_last_sound c s a b h = subst (Halves c s) h (cut_last-Halves c s)
