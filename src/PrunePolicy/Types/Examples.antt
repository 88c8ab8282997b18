-- ===== src/PrunePolicy/Types/Examples.antt =====
-- A report at work.
use kwt.Common.{◌+◌, ◌≡◌, refl, ◌⊎◌, ◌↔◌, false, List, [], ◌∷◌, codes, length, count, All}
use kwt.PrunePolicy.Types.{
  Reason, removed, pr_not_merged, would_require_confirmation, network_failure, Outcome, Report,
  finalize, exit_code, exit_code_of, count_outcome, count_outcomes,
}
use kwt.PrunePolicy.Types.Summaries.{
  is_removed, is_planned, IsExpected, finalize-counts, exit_code-zero,
}

abbrev outcome : Reason → Outcome
outcome reason = record {
  path = codes "/w";
  branch = codes "b";
  reason = reason;
  message = [];
  remediation = [];
  evidence = [];
}

abbrev report : List Outcome → Report
report os = record {
  schema_version = 2;
  command = codes "prune";
  policy = codes "merged";
  dry_run = false;
  outcomes = os;
  summary = record { candidates = 0; removed = 0; would_remove = 0; skipped = 0 };
}

abbrev a_report : Report
a_report =
    report (outcome removed ∷ outcome pr_not_merged ∷ outcome would_require_confirmation ∷ [])

a_summary :
    (finalize a_report).summary
    ≡ record { candidates = 3; removed = 1; would_remove = 1; skipped = 1 }
unfolding finalize count_outcomes count_outcome
a_summary = refl

kept_is_no_failure : exit_code a_report ≡ 0
unfolding exit_code exit_code_of
kept_is_no_failure = refl

failure_is_reported : exit_code (report (outcome removed ∷ outcome network_failure ∷ [])) ≡ 1
unfolding exit_code exit_code_of
failure_is_reported = refl

finalize-counts_example :
    let s = (finalize a_report).summary in
    (finalize a_report ≡ record a_report { summary = s })
    × (s.candidates ≡ length a_report.outcomes)
    × (s.removed ≡ count (λ o. is_removed o.reason) a_report.outcomes)
    × (s.would_remove ≡ count (λ o. is_planned o.reason) a_report.outcomes)
    × (s.removed + s.would_remove + s.skipped ≡ s.candidates)
finalize-counts_example = finalize-counts a_report

exit_code-zero_example :
    ((exit_code a_report ≡ 0) ⊎ (exit_code a_report ≡ 1))
    × ((exit_code a_report ≡ 0) ↔ All (λ o. IsExpected o.reason) a_report.outcomes)
    × (exit_code (finalize a_report) ≡ exit_code a_report)
exit_code-zero_example = exit_code-zero a_report
