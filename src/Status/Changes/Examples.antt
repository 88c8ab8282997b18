-- ===== src/Status/Changes/Examples.antt =====
-- Changes that are coalesced, and their summary.
use kwt.Common.{
  ◌<◌, ◌≡◌, ◌↔◌, refl, List, [], ◌∷◌, Text, codes, if◌then◌else◌, ◌=?◌, length, count, any, ok, err,
}
use kwt.Status.Porcelain.{FileState, unmodified, modified, added, conflicted, untracked, FileChange}
use kwt.Status.Changes.{
  merge, add_file, coalesce_loop, coalesce_file_changes, incompatible_index, derive_change_set,
  staged, clean, no_changes, conflicts_left,
}
use kwt.Status.Changes.Paths.{has_path, coalesce_file_changes-count}
use kwt.Status.Changes.Counts.{AllCounted, is_ranked, is_indexed, derive_change_set-counts}

abbrev file : Text → FileState → FileState → FileChange
file path index worktree = record {
  path = path;
  original_path = [];
  index = index;
  worktree = worktree;
}

abbrev files : List FileChange
files =
    file (codes "b") added unmodified
    ∷ file (codes "a") unmodified untracked
    ∷ file (codes "b") unmodified modified
    ∷ []

abbrev coalesced : List FileChange
coalesced = file (codes "b") added modified ∷ file (codes "a") unmodified untracked ∷ []

coalesced_test : coalesce_file_changes files ≡ ok coalesced
unfolding coalesce_file_changes coalesce_loop add_file merge ◌=?◌
coalesced_test = refl

incompatible_test :
    coalesce_file_changes
      (file (codes "b") added unmodified ∷ file (codes "b") modified unmodified ∷ [])
    ≡ err (incompatible_index (codes "b"))
unfolding coalesce_file_changes coalesce_loop add_file merge ◌=?◌
incompatible_test = refl

coalesce_file_changes-count_example :
    count (has_path (codes "b")) coalesced ≡ (if any (has_path (codes "b")) files then 1 else 0)
coalesce_file_changes-count_example =
    coalesce_file_changes-count files coalesced (codes "b") coalesced_test

derive_change_set-counts_example :
    let d = derive_change_set coalesced in
    AllCounted coalesced no_changes d.summary
    × (count (has_path (codes "a")) d.files ≡ count (has_path (codes "a")) coalesced)
    × (length d.files ≡ length coalesced)
    × ((d.state ≡ conflicts_left) ↔ (0 < count (is_ranked conflicted) coalesced))
    × ((d.state ≡ staged)
        ↔ ((count (is_ranked conflicted) coalesced ≡ 0) × (0 < count is_indexed coalesced)))
    × ((d.state ≡ clean) ↔ (length coalesced ≡ 0))
derive_change_set-counts_example = derive_change_set-counts (has_path (codes "a")) coalesced
