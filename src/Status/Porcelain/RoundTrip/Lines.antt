-- ===== src/Status/Porcelain/RoundTrip/Lines.antt =====
-- The parsers of single records on documented lines.
use kwt.Common.{
  ◌≡◌, ◌≢◌, refl, ◌⊎◌, Bool, true, false, [], ◌∷◌, ◌++◌, arith, Text, length, All, ◌=?◌, ◌==◌, ok,
  spaced, split_n-spaced,
}
use kwt.Status.Porcelain.{
  unmodified, conflicted, untracked, space, are_modes, are_object_ids, parse_states,
  malformed_rename_fields, malformed_ordinary_fields, malformed_unmerged_fields,
  parse_rename_or_copy, parse_ordinary, parse_untracked, parse_unmerged,
}
use kwt.Status.Porcelain.Format.{
  Letter, letter, state_of, IsMode, IsObjectId, Meta, IsMeta, Unmerged, Percent, IsPercent,
  score_letter, IsPath, ordinary_fields, rename_fields, unmerged_fields,
}
use kwt.Status.Porcelain.RoundTrip.Fields.{
  is_submodule-print_submodule, is_mode-IsMode, is_object_id-IsObjectId,
  is_unmerged_code-unmerged_code, parse_state-letter, is_rename_or_copy_score-digits, Visible,
  letters-Visible, print_submodule-Visible, IsMode-Visible, IsObjectId-Visible,
  unmerged_code-Visible, score-Visible, All-Visible-Lacks,
}

parse_states-letters :
    (x y : Letter) (p o : Text)
    → parse_states (letter x ∷ letter y ∷ []) p o
      ≡ ok (record { path = p; original_path = o; index = state_of x; worktree = state_of y })
unfolding parse_states
parse_states-letters x y p o = rw (parse_state-letter x, parse_state-letter y)

three_modes : (a b c : Text) → IsMode a → IsMode b → IsMode c → are_modes (a ∷ b ∷ c ∷ []) ≡ true
unfolding are_modes
three_modes a b c ha hb hc = rw (is_mode-IsMode a ha, is_mode-IsMode b hb, is_mode-IsMode c hc)

four_modes :
    (a b c d : Text)
    → IsMode a
    → IsMode b
    → IsMode c
    → IsMode d
    → are_modes (a ∷ b ∷ c ∷ d ∷ []) ≡ true
unfolding are_modes
four_modes a b c d ha hb hc hd =
    rw (is_mode-IsMode a ha, is_mode-IsMode b hb, is_mode-IsMode c hc, is_mode-IsMode d hd)

two_ids : (a b : Text) → IsObjectId a → IsObjectId b → are_object_ids (a ∷ b ∷ []) ≡ true
unfolding are_object_ids
two_ids a b ha hb = rw (is_object_id-IsObjectId a ha, is_object_id-IsObjectId b hb)

three_ids :
    (a b c : Text)
    → IsObjectId a
    → IsObjectId b
    → IsObjectId c
    → are_object_ids (a ∷ b ∷ c ∷ []) ≡ true
unfolding are_object_ids
three_ids a b c ha hb hc =
    rw (is_object_id-IsObjectId a ha, is_object_id-IsObjectId b hb, is_object_id-IsObjectId c hc)

not_empty : (p : Text) → p ≢ [] → (length p == 0) ≡ false
not_empty [] h = absurd (h refl)
not_empty (c ∷ p) h = ground arith

module _ (x y : Letter) (i : Meta) (v : IsMeta i) where
  pub ordinary_fields-Visible : All Visible (ordinary_fields x y i)
  ordinary_fields-Visible = (
    omega arith,
    (
      letters-Visible x y,
      (
        print_submodule-Visible i.sub,
        (
          IsMode-Visible i.mode_1 v.mode_1,
          (
            IsMode-Visible i.mode_2 v.mode_2,
            (
              IsMode-Visible i.mode_3 v.mode_3,
              (IsObjectId-Visible i.id_1 v.id_1, (IsObjectId-Visible i.id_2 v.id_2, tt)),
            ),
          ),
        ),
      ),
    ),
  )

  well_formed_ordinary :
      (p : Text) → IsPath p → malformed_ordinary_fields (ordinary_fields x y i ++ p ∷ []) ≡ false
  unfolding ◌=?◌
  well_formed_ordinary p h = simp (
    is_submodule-print_submodule i.sub,
    three_modes i.mode_1 i.mode_2 i.mode_3 v.mode_1 v.mode_2 v.mode_3,
    two_ids i.id_1 i.id_2 v.id_1 v.id_2,
    not_empty p h.0,
  )

  pub ordinary_line :
      (p : Text)
      → IsPath p
      → parse_ordinary (spaced space (ordinary_fields x y i) p)
        ≡ ok (record { path = p; original_path = []; index = state_of x; worktree = state_of y })
  unfolding parse_ordinary
  ordinary_line p h =
      rw
        (
          split_n-spaced space (ordinary_fields x y i) p (
              All-Visible-Lacks space (ordinary_fields x y i) (omega arith)
                ordinary_fields-Visible),
          well_formed_ordinary p h,
        )
        (parse_states-letters x y p [])

  module _ (s : Bool) (n : Percent) (e : (x ≡ score_letter s) ⊎ (y ≡ score_letter s))
      (w : IsPercent n) where
    pub rename_fields-Visible : All Visible (rename_fields x y i s n)
    rename_fields-Visible =
        let (a, (b, (c, (d, (e', (f, (g, (h, _)))))))) = ordinary_fields-Visible in
        (omega arith, (b, (c, (d, (e', (f, (g, (h, (score-Visible s n, tt)))))))))

    well_formed_rename :
        (p o : Text)
        → IsPath p
        → IsPath o
        → malformed_rename_fields (rename_fields x y i s n ++ p ∷ []) o ≡ false
    unfolding ◌=?◌
    well_formed_rename p o h k = simp (
      is_submodule-print_submodule i.sub,
      three_modes i.mode_1 i.mode_2 i.mode_3 v.mode_1 v.mode_2 v.mode_3,
      two_ids i.id_1 i.id_2 v.id_1 v.id_2,
      not_empty p h.0,
      not_empty o k.0,
      is_rename_or_copy_score-digits x y s n e w,
    )

    pub rename_line :
        (p o : Text)
        → IsPath p
        → IsPath o
        → parse_rename_or_copy (spaced space (rename_fields x y i s n) p) o
          ≡ ok (record { path = p; original_path = o; index = state_of x; worktree = state_of y })
    unfolding parse_rename_or_copy
    rename_line p o h k =
        rw
          (
            split_n-spaced space (rename_fields x y i s n) p (
                All-Visible-Lacks space (rename_fields x y i s n) (omega arith)
                  rename_fields-Visible),
            well_formed_rename p o h k,
          )
          (parse_states-letters x y p o)

module _ (u : Unmerged) (i : Meta) (m id : Text) (v : IsMeta i) (hm : IsMode m)
    (hi : IsObjectId id) where
  pub unmerged_fields-Visible : All Visible (unmerged_fields u i m id)
  unmerged_fields-Visible = (
    omega arith,
    (
      unmerged_code-Visible u,
      (
        print_submodule-Visible i.sub,
        (
          IsMode-Visible i.mode_1 v.mode_1,
          (
            IsMode-Visible i.mode_2 v.mode_2,
            (
              IsMode-Visible i.mode_3 v.mode_3,
              (
                IsMode-Visible m hm,
                (
                  IsObjectId-Visible i.id_1 v.id_1,
                  (IsObjectId-Visible i.id_2 v.id_2, (IsObjectId-Visible id hi, tt)),
                ),
              ),
            ),
          ),
        ),
      ),
    ),
  )

  well_formed_unmerged :
      (p : Text) → IsPath p → malformed_unmerged_fields (unmerged_fields u i m id ++ p ∷ []) ≡ false
  unfolding ◌=?◌
  well_formed_unmerged p h = simp (
    is_unmerged_code-unmerged_code u,
    is_submodule-print_submodule i.sub,
    four_modes i.mode_1 i.mode_2 i.mode_3 m v.mode_1 v.mode_2 v.mode_3 hm,
    three_ids i.id_1 i.id_2 id v.id_1 v.id_2 hi,
    not_empty p h.0,
  )

  pub unmerged_line :
      (p : Text)
      → IsPath p
      → parse_unmerged (spaced space (unmerged_fields u i m id) p)
        ≡ ok (record { path = p; original_path = []; index = conflicted; worktree = conflicted })
  unfolding parse_unmerged
  unmerged_line p h = rw (
    split_n-spaced space (unmerged_fields u i m id) p
        (All-Visible-Lacks space (unmerged_fields u i m id) (omega arith) unmerged_fields-Visible),
    well_formed_unmerged p h,
  )

pub untracked_line :
    (p : Text)
    → IsPath p
    → parse_untracked (b'?' ∷ space ∷ p)
      ≡ ok (record { path = p; original_path = []; index = unmodified; worktree = untracked })
unfolding parse_untracked
untracked_line [] h = absurd (h.0 refl)
untracked_line (c ∷ p) h = ground arith
