-- ===== src/Status/Porcelain/RoundTrip/Rounds.antt =====
-- One round of the loop on a documented line.
use kwt.Common.{
  ◌≡◌, Option, none, some, [], ◌∷◌, ◌++◌, arith, Text, Lacks, cut-append, spaced-Lacks,
  append_assoc,
}
use kwt.Status.Porcelain.{
  FileChange, space, parse_record, rename_round, Round, found, skipped, round_of, next_round,
}
use kwt.Status.Porcelain.Format.{
  Line, ordinary, rename, unmerged, untracked_path, other, IsLine, ordinary_fields, rename_fields,
  unmerged_fields, print_line, behind, change,
}
use kwt.Status.Porcelain.RoundTrip.Fields.{All-Visible-Lacks}
use kwt.Status.Porcelain.RoundTrip.Lines.{
  ordinary_fields-Visible, ordinary_line, rename_fields-Visible, rename_line,
  unmerged_fields-Visible, unmerged_line, untracked_line,
}

-- A line holds no NUL, so the first one ends it.
print_line-Lacks : (l : Line) → IsLine l → Lacks 0 (print_line l)
unfolding print_line
print_line-Lacks (ordinary x y i p) h =
    spaced-Lacks 0 space (ordinary_fields x y i) p (omega arith)
      (All-Visible-Lacks 0 (ordinary_fields x y i) (omega arith)
        (ordinary_fields-Visible x y i h.0))
      h.1.1
print_line-Lacks (rename x y i s n p o) h =
    spaced-Lacks 0 space (rename_fields x y i s n) p (omega arith)
      (All-Visible-Lacks 0 (rename_fields x y i s n) (omega arith)
        (rename_fields-Visible x y i h.1 s n h.0 h.2))
      h.3.1
print_line-Lacks (unmerged u i m id p) h =
    spaced-Lacks 0 space (unmerged_fields u i m id) p (omega arith)
      (All-Visible-Lacks 0 (unmerged_fields u i m id) (omega arith)
        (unmerged_fields-Visible u i m id h.0 h.1 h.2))
      h.3.1
print_line-Lacks (untracked_path p) h = (omega arith, (omega arith, h.1))
print_line-Lacks (other tag s) h = (h.0, h.5)

-- What a round makes of a line.
abbrev pub outcome : Option FileChange → Text → Round
outcome none rest = skipped rest
outcome (some c) rest = found c rest

round_of-print_line :
    (l : Line) (rest : Text)
    → IsLine l
    → round_of (print_line l) (behind l ++ rest) ≡ outcome (change l) rest
unfolding print_line round_of rename_round parse_record
round_of-print_line (ordinary x y i p) rest h = ground (arith, ordinary_line x y i h.0 p h.1)
round_of-print_line (rename x y i s n p o) rest h =
    rw (append_assoc o (0 ∷ []) rest, cut-append 0 o rest h.4.1)
      (ground (arith, rename_line x y i h.1 s n h.0 h.2 p o h.3 h.4))
round_of-print_line (unmerged u i m id p) rest h =
    ground (arith, unmerged_line u i m id h.0 h.1 h.2 p h.3)
round_of-print_line (untracked_path p) rest h = ground (arith, untracked_line p h)
round_of-print_line (other tag s) rest h = ground arith

pub next_round-print_line :
    (l : Line) (rest : Text)
    → IsLine l
    → next_round (print_line l ++ 0 ∷ (behind l ++ rest)) ≡ outcome (change l) rest
unfolding next_round
next_round-print_line l rest h =
    rw (cut-append 0 (print_line l) (behind l ++ rest) (print_line-Lacks l h))
      (round_of-print_line l rest h)
