-- ===== src/Fleet/HostId/Normal.antt =====
-- A host id that was normalised is left as it is.
use kwt.Common.Trimming.{trim_right-ended_last}
use kwt.Common.{
  ℕ, ◌≡◌, refl, sym, ap, ◌∙◌, Bool, true, not, [], ◌∷◌, Text, arith, if-elim, ◌=?◌, all, All,
  Result, ok, ◌>>◌, bind-ok, ok_inj, require, is_space, lower, to_lower, trim_left, trim_right,
  trim_space,
}
use kwt.Fleet.Types.{FleetError, host_id_required, invalid_host_id}
use kwt.Fleet.HostId.{is_host_id_char, matches_host_id_pattern, normalize_host_id}

all-All : (s : Text) → all is_host_id_char s ≡ true → All (λ c. is_host_id_char c ≡ true) s
all-All [] h = tt
all-All (c ∷ s) h = ground (arith, all-All s)

matches-All : (s : Text) → matches_host_id_pattern s ≡ true → All (λ c. is_host_id_char c ≡ true) s
unfolding matches_host_id_pattern
matches-All [] h = tt
matches-All (c ∷ s) h = all-All (c ∷ s) h

to_lower_same : (s : Text) → All (λ c. is_host_id_char c ≡ true) s → to_lower s ≡ s
to_lower_same [] h = refl
to_lower_same (c ∷ s) h = lowered_head c s (ground arith) (to_lower_same s h.1)
  where
    lowered_head : (d : ℕ) (t : Text) → lower d ≡ d → to_lower t ≡ t → lower d ∷ to_lower t ≡ d ∷ t
    lowered_head d t e k = ap (λ x. x ∷ to_lower t) e ∙ ap (◌∷◌ d) k

trim_right_same : (s : Text) → All (λ c. is_host_id_char c ≡ true) s → trim_right s ≡ s
unfolding trim_right
trim_right_same [] h = refl
trim_right_same (c ∷ s) h = trim_right-ended_last c s (ground arith) (trim_right_same s h.1)

trim_left_same : (s : Text) → All (λ c. is_host_id_char c ≡ true) s → trim_left s ≡ s
unfolding trim_left
trim_left_same [] h = refl
trim_left_same (c ∷ s) h =
    if-elim (λ t. t ≡ c ∷ s) (is_space c) (trim_left s) (c ∷ s) (λ k. ground arith) (λ _. refl)

trim_space_same : (s : Text) → All (λ c. is_host_id_char c ≡ true) s → trim_space s ≡ s
unfolding trim_space
trim_space_same s h = ap trim_right (trim_left_same s h) ∙ trim_right_same s h

abbrev checked_id : Text → Result FleetError Text
checked_id s = do
  require (not (s =? [])) host_id_required
  require (matches_host_id_pattern s) (invalid_host_id s)
  ok s

accepted :
    (s host_id : Text)
    → checked_id s ≡ ok host_id
    → (matches_host_id_pattern host_id ≡ true) × (s ≡ host_id)
accepted s host_id h =
    let (_, (_, rest)) = bind-ok (require (not (s =? [])) host_id_required) _ host_id h in
    let (t, (matched, same)) =
      bind-ok (require (matches_host_id_pattern s) (invalid_host_id s)) _ host_id rest in
    let e = ok_inj s host_id same in
    (
      ap matches_host_id_pattern (sym e)
          ∙ required (matches_host_id_pattern s) (invalid_host_id s) t matched,
      e,
    )
  where
    required : (b : Bool) (x : FleetError) (u : Unit) → require b x ≡ ok u → b ≡ true
    required b x u k = ground arith

passes_again :
    (host_id s : Text)
    → matches_host_id_pattern host_id ≡ true
    → s ≡ host_id
    → checked_id s ≡ ok host_id
unfolding matches_host_id_pattern ◌=?◌
passes_again [] s h e = ground arith
passes_again (c ∷ t) s h e = rw (e, h) refl

-- A host id that normalisation returns matches the pattern, and normalisation leaves it as it is.
pub normalize_host_id_again :
    (raw host_id : Text)
    → normalize_host_id raw ≡ ok host_id
    → (matches_host_id_pattern host_id ≡ true) × (normalize_host_id host_id ≡ ok host_id)
unfolding normalize_host_id
normalize_host_id_again raw host_id h =
    let (matched, same) = accepted (to_lower (trim_space raw)) host_id h in
    let chars = matches-All host_id matched in
    (
      matched,
      passes_again host_id (to_lower (trim_space host_id)) matched
          (ap to_lower (trim_space_same host_id chars) ∙ to_lower_same host_id chars),
    )
