-- ===== src/PrunePolicy/Types/Summaries.antt =====
-- The summary and the exit code of a report.
use kwt.Common.{
  ℕ, ◌+◌, ◌≡◌, ◌↔◌, ◌⊎◌, inl, inr, refl, Bool, true, false, List, [], ◌∷◌, arith, length, All,
  count, Bool-cases,
}
use kwt.PrunePolicy.Types.{
  Reason, removed, would_remove, would_require_confirmation, confirmation_declined,
  no_associated_pr, pr_not_merged, Outcome, Summary, Report, finalize, exit_code, is_success,
  count_outcome, count_outcomes, exit_code_of,
}

abbrev pub is_removed : Reason → Bool
is_removed removed = true
is_removed _ = false

abbrev pub is_planned : Reason → Bool
is_planned would_remove = true
is_planned would_require_confirmation = true
is_planned _ = false

-- One more outcome, counted under one heading.
abbrev one_if : Bool → ℕ
one_if true = 1
one_if false = 0

count_outcome_lem :
    (r : Reason) (s : Summary)
    → ((count_outcome r s).candidates ≡ s.candidates)
      × ((count_outcome r s).removed ≡ s.removed + one_if (is_removed r))
      × ((count_outcome r s).would_remove ≡ s.would_remove + one_if (is_planned r))
      × ((count_outcome r s).removed
            + (count_outcome r s).would_remove
            + (count_outcome r s).skipped
          ≡ s.removed + s.would_remove + s.skipped + 1)
unfolding count_outcome
count_outcome_lem removed s = omega arith
count_outcome_lem _ s = omega arith

count_outcomes_lem :
    (os : List Outcome) (s : Summary)
    → ((count_outcomes os s).candidates ≡ s.candidates)
      × ((count_outcomes os s).removed ≡ s.removed + count (λ o. is_removed o.reason) os)
      × ((count_outcomes os s).would_remove ≡ s.would_remove + count (λ o. is_planned o.reason) os)
      × ((count_outcomes os s).removed
            + (count_outcomes os s).would_remove
            + (count_outcomes os s).skipped
          ≡ s.removed + s.would_remove + s.skipped + length os)
unfolding count_outcomes
count_outcomes_lem [] s = omega arith
count_outcomes_lem (o ∷ os) s =
    ground (arith, count_outcome_lem o.reason s, count_outcomes_lem os (count_outcome o.reason s))

-- The summary counts the removed outcomes and the planned ones, and its three headings add up to the
-- candidates, of which there is one for each outcome. Nothing else of the report changes.
pub finalize-counts :
    (r : Report)
    → let s = (finalize r).summary in
      (finalize r ≡ record r { summary = s })
      × (s.candidates ≡ length r.outcomes)
      × (s.removed ≡ count (λ o. is_removed o.reason) r.outcomes)
      × (s.would_remove ≡ count (λ o. is_planned o.reason) r.outcomes)
      × (s.removed + s.would_remove + s.skipped ≡ s.candidates)
unfolding finalize
finalize-counts r =
    let start : Summary = record {
      candidates = length r.outcomes;
      removed = 0;
      would_remove = 0;
      skipped = 0;
    } in
    let counted = count_outcomes_lem r.outcomes start in
    (
      refl,
      ground (arith, counted),
      ground (arith, counted),
      ground (arith, counted),
      ground (arith, counted),
    )

-- A removal, planned or done, one that the user declined, or one whose pull request is missing or not
-- merged.
abbrev pub IsExpected : Reason → Type 0
IsExpected r =
    (r ≡ removed)
    ⊎ (r ≡ would_remove)
    ⊎ (r ≡ would_require_confirmation)
    ⊎ (r ≡ confirmation_declined)
    ⊎ (r ≡ no_associated_pr)
    ⊎ (r ≡ pr_not_merged)

is_success-IsExpected : (r : Reason) → is_success r ≡ true → IsExpected r
is_success-IsExpected removed h = inl refl
is_success-IsExpected would_remove h = inr (inl refl)
is_success-IsExpected would_require_confirmation h = inr (inr (inl refl))
is_success-IsExpected confirmation_declined h = inr (inr (inr (inl refl)))
is_success-IsExpected no_associated_pr h = inr (inr (inr (inr (inl refl))))
is_success-IsExpected pr_not_merged h = inr (inr (inr (inr (inr refl))))
is_success-IsExpected _ h = ground arith

IsExpected-is_success : (r : Reason) → IsExpected r → is_success r ≡ true
IsExpected-is_success r h = ground (arith, h)

exit_code_of-zero : (os : List Outcome) → (exit_code_of os ≡ 0) ↔ All (λ o. IsExpected o.reason) os
unfolding exit_code_of
exit_code_of-zero [] = (λ _. tt, λ _. refl)
exit_code_of-zero (o ∷ os) = elim (Bool-cases (is_success o.reason)) [
  | inl e ↦ rw e (
    λ h. (is_success-IsExpected o.reason e, (exit_code_of-zero os).0 h),
    λ h. (exit_code_of-zero os).1 h.1,
  )
  | inr e ↦
      rw e (λ h. absurd (omega arith), λ h. absurd (cc (e, IsExpected-is_success o.reason h.0)))
]

exit_code_of-zero-or-one : (os : List Outcome) → (exit_code_of os ≡ 0) ⊎ (exit_code_of os ≡ 1)
unfolding exit_code_of
exit_code_of-zero-or-one [] = inl refl
exit_code_of-zero-or-one (o ∷ os) = ground (arith, exit_code_of-zero-or-one os)

-- The exit code is 0 or 1, and it is 0 exactly when every outcome is a removal, planned or done, one
-- that the user declined, or one whose pull request is missing or not merged; the summary has no
-- part in it.
pub exit_code-zero :
    (r : Report)
    → ((exit_code r ≡ 0) ⊎ (exit_code r ≡ 1))
      × ((exit_code r ≡ 0) ↔ All (λ o. IsExpected o.reason) r.outcomes)
      × (exit_code (finalize r) ≡ exit_code r)
unfolding exit_code finalize
exit_code-zero r = (exit_code_of-zero-or-one r.outcomes, exit_code_of-zero r.outcomes, refl)
