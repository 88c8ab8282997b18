-- ===== src/Registry/Calls/Spared.antt =====
-- What the other changes leave of a worktree that one creation owns, and what spares it.
use kwt.Common.{
  ℕ, ◌≡◌, refl, sym, ap, ◌∙◌, subst, ◌≢◌, inl, inr, Bool, false, Option, none, some, List, [], ◌∷◌,
  Text, arith, map, Bool-cases, ◌==◌, ◌&&◌, eq_sound, &&-eq-true, keep, any, All, All-keep,
  All-mono, lookup, IsKeyed, length,
}
use kwt.Registry.Entries.{WorktreeEntry, Entries, matches_path}
use kwt.Registry.Changes.{only_match, group_of, match_group, swap_group}
use kwt.Registry.Changes.Groups.{IsOwnKeyed, kept_keys}
use kwt.Registry.Changes.Swaps.{values}
use kwt.Registry.Changes.Held.{IsTaken, IsFree-apart, insert-IsHeld, update_key-IsHeld}
use kwt.Registry.Changes.Owned.{
  is_owned, is_owned-parts, IsSpared, spared, canonical_of_match, not_owned_values, lookups,
  group_of-values, match_group-unowned,
}
use kwt.Registry.Updates.{set_matching, set_sole, is_settled, is_removable, acknowledged, on_match}
use kwt.Registry.Calls.Kept.{IsKept, IsAt, free, enter-others, deleted, sole_found}

module _ (canonical : Text → Text) (path token : Text) where
  module _ (q : Text) (x : Entries) (keyed : IsKeyed x) (own : IsOwnKeyed x)
      (kept : IsKept canonical path token x) where
    group_of-kept :
        group_of x (kept_keys (matches_path canonical q) x)
        ≡ values (keep (matches_path canonical q) x)
    group_of-kept =
        group_of-values x (keep (matches_path canonical q) x)
          (All-keep (λ f. lookup f.0 x ≡ some f.1) (matches_path canonical q) x (lookups x keyed))

    pub swap_group-IsKept :
        (expected : List WorktreeEntry) (retained : Option WorktreeEntry)
        → token ≢ []
        → IsAt canonical path token q retained
        → IsKept canonical path token
            (swap_group canonical expected retained x
              (kept_keys (matches_path canonical q) x)).after
    unfolding swap_group
    swap_group-IsKept expected retained n a =
        elim (Bool-cases (
          (length (kept_keys (matches_path canonical q) x) == length expected)
          && match_group (group_of x (kept_keys (matches_path canonical q) x)) expected)) [
            | inl t ↦ rw t (
                subst (IsKept canonical path token)
                  (deleted canonical path token q x keyed own kept retained)
                  (enter-others canonical path token q x keyed own kept retained a (
                    spared path token (matches_path canonical q) x (
                      not_owned_values path token (keep (matches_path canonical q) x) _
                        (sym group_of-kept)
                        (All-mono (λ e. e.creation_token ≡ []) (λ e. e.creation_token ≢ token) _
                          (λ e u w. n (sym w ∙ u))
                          (match_group-unowned _ expected (&&-eq-true _ _ t).1))))))
            | inr f ↦ rw f kept
          ]

    set_sole-IsKept :
        (generation repository branch : Text) (expires_at : Option ℕ)
        → token ≢ []
        → (o : Option (Text × WorktreeEntry))
        → only_match x (kept_keys (matches_path canonical q) x) ≡ o
        → IsKept canonical path token (set_sole q generation repository branch expires_at x o).after
    unfolding set_sole is_settled
    set_sole-IsKept generation repository branch expires_at n none c = kept
    set_sole-IsKept generation repository branch expires_at n (some (k, e)) c =
        elim (Bool-cases (is_settled generation e)) [
          | inl t ↦
              let found =
                sole_found canonical path token q x keyed own kept k e c
                  (λ w. n (sym w ∙ eq_sound _ _ (&&-eq-true _ _ t).0)) in
              let apart =
                IsFree-apart path token q x
                  (free canonical path token q x keyed own kept q refl found.1) own kept.0 in
              rw t (update_key-IsHeld path token k _ x found.0 (λ _ _. apart) own kept)
          | inr f ↦ rw f kept
        ]

    pub set_matching-IsKept :
        (now : ℕ) (generation repository branch : Text) (expires_at : Option ℕ)
        → token ≢ []
        → (y : Entries) → keep (matches_path canonical q) x ≡ y
        → IsKept canonical path token
            (set_matching now q generation repository branch expires_at x (map (λ f. f.0) y)).after
    unfolding set_matching
    set_matching-IsKept now generation repository branch expires_at n [] h =
        insert-IsHeld path token _ x
          (free canonical path token q x keyed own kept q refl (
            spared path token (matches_path canonical q) x
              (subst (All (λ f. is_owned path token f ≡ false)) (sym h) tt)))
          own kept
    set_matching-IsKept now generation repository branch expires_at n (f ∷ y) h =
        set_sole-IsKept generation repository branch expires_at n
          (only_match x (map (λ g. g.0) (f ∷ y))) (ap (λ z. only_match x (map (λ g. g.0) z)) h)

    any-acknowledged :
        (m : Text × WorktreeEntry → Bool) (y : Entries)
        → any (is_owned path token) (on_match m acknowledged y) ≡ any (is_owned path token) y
    unfolding is_owned acknowledged
    any-acknowledged m [] = refl
    any-acknowledged m (f ∷ y) = ground (arith, any-acknowledged m y)

    acknowledged-IsTaken :
        (m : Text × WorktreeEntry → Bool) (y : Entries)
        → All (IsTaken path token) y
        → All (IsTaken path token) (on_match m acknowledged y)
    unfolding acknowledged
    acknowledged-IsTaken m [] h = tt
    acknowledged-IsTaken m (f ∷ y) h = elim (Bool-cases (m f)) [
      | inl t ↦ rw t (h.0, acknowledged-IsTaken m y h.1)
      | inr n ↦ rw n (h.0, acknowledged-IsTaken m y h.1)
    ]

    pub acknowledged-IsKept :
        (m : Text × WorktreeEntry → Bool) → IsKept canonical path token (on_match m acknowledged x)
    acknowledged-IsKept m = (any-acknowledged m x ∙ kept.0, acknowledged-IsTaken m x kept.1)

    pub away :
        canonical q ≢ canonical path
        → (y : Entries) → IsOwnKeyed y
        → IsSpared path token (matches_path canonical q) y
    unfolding matches_path
    away n [] o = tt
    away n (f ∷ y) o = (
      (λ w. elim (Bool-cases ((matches_path canonical q) f)) [
        | inl t ↦
            elim (n (
              sym (canonical_of_match path token canonical q f.0 f.1 o.0 t)
              ∙ ap canonical (o.0 ∙ (is_owned-parts path token f w).0))) [ ]
        | inr b ↦ b
      ]),
      away n y o.1,
    )

    pub settled_away :
        (generation : Text)
        → token ≢ []
        → (y : Entries) → IsSpared path token (is_removable canonical q generation) y
    unfolding is_removable is_settled
    settled_away generation n [] = tt
    settled_away generation n (f ∷ y) = (
      (λ w. elim (Bool-cases (is_removable canonical q generation f)) [
        | inl t ↦
            elim (n (
              sym (is_owned-parts path token f w).1
              ∙ eq_sound _ _ (&&-eq-true _ _ (&&-eq-true _ _ t).1).0)) [ ]
        | inr b ↦ b
      ]),
      settled_away generation n y,
    )

  pub gone_away :
      (is_gone : Text → Bool)
      → is_gone path ≡ false
      → (y : Entries) → IsOwnKeyed y
      → IsSpared path token (λ f. is_gone f.0) y
  gone_away is_gone g [] o = tt
  gone_away is_gone g (f ∷ y) o =
      ((λ w. ap is_gone (o.0 ∙ (is_owned-parts path token f w).0) ∙ g), gone_away is_gone g y o.1)
