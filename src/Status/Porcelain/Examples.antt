-- ===== src/Status/Porcelain/Examples.antt =====
-- Runs of the parser, and its theorems at concrete inputs.
use kwt.Common.{
  ◌≡◌, refl, inl, true, some, List, [], ◌∷◌, arith, Text, codes, All, Result, ok, err, ◌=?◌, cut,
  split_n,
}
use kwt.Status.Porcelain.{
  FileChange, ParseError, unmodified, modified, renamed, untracked, not_terminated,
  parse_change_porcelain_v2, parse_loop, next_round, round_of, rename_round, parse_record,
  parse_ordinary, parse_untracked, parse_rename_or_copy, parse_states, parse_state, is_submodule,
  are_modes, are_object_ids, is_rename_or_copy_score,
}
use kwt.Status.Porcelain.Format.{
  Line, IsLine, Meta, IsMeta, not_submodule, ordinary, rename, untracked_path, other, still, edited,
  moved, two, print, changes,
}
use kwt.Status.Porcelain.RoundTrip.{parse-print}
use kwt.Status.Porcelain.Sound.{parse_total}
use kwt.Status.Porcelain.Accepted.{IsSound, parse-ok-All-IsSound}

abbrev mode : Text
mode = codes "100644"

abbrev object : Text
object = codes "0123456789abcdef0123456789abcdef01234567"

abbrev plain : Meta
plain = record {
  sub = not_submodule;
  mode_1 = mode;
  mode_2 = mode;
  mode_3 = mode;
  id_1 = object;
  id_2 = object;
}

abbrev lines : List Line
lines =
    other b'#' (codes " branch.head main")
    ∷ ordinary still edited plain (codes "a b")
    ∷ rename moved still plain true (two 9 7) (codes "new") (codes "old")
    ∷ untracked_path (codes "x")
    ∷ []

read_lines :
    parse_change_porcelain_v2 (print lines)
    ≡ some (
        ok (
          record { path = codes "a b"; original_path = []; index = unmodified; worktree = modified }
          ∷ record {
            path = codes "new";
            original_path = codes "old";
            index = renamed;
            worktree = unmodified;
          }
          ∷ record {
            path = codes "x";
            original_path = [];
            index = unmodified;
            worktree = untracked;
          }
          ∷ []))
unfolding parse_change_porcelain_v2 parse_loop next_round round_of rename_round parse_record
    parse_ordinary parse_untracked parse_rename_or_copy parse_states parse_state is_submodule
    are_modes are_object_ids is_rename_or_copy_score cut split_n ◌=?◌ print
read_lines = refl

plain-IsMeta : IsMeta plain
plain-IsMeta = omega arith

lines-IsLine : All IsLine lines
lines-IsLine = (
  omega arith,
  (
    (plain-IsMeta, (λ e. cc, omega arith)),
    (
      (inl refl, plain-IsMeta, omega arith, (λ e. cc, omega arith), (λ e. cc, omega arith)),
      ((λ e. cc, omega arith), tt),
    ),
  ),
)

parse-print_example : parse_change_porcelain_v2 (print lines) ≡ some (ok (changes lines))
parse-print_example = parse-print lines lines-IsLine

unfinished : parse_change_porcelain_v2 (codes "? x") ≡ some (err not_terminated)
unfolding parse_change_porcelain_v2 parse_loop next_round cut
unfinished = refl

parse_total_example :
    (r : Result ParseError (List FileChange)) × (parse_change_porcelain_v2 (codes "? x") ≡ some r)
parse_total_example = parse_total (codes "? x")

parse-ok-All-IsSound_example : All IsSound (changes lines)
parse-ok-All-IsSound_example =
    parse-ok-All-IsSound (print lines) (changes lines) parse-print_example
