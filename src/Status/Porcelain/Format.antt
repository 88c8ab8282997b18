-- ===== src/Status/Porcelain/Format.antt =====
-- The lines that `git status --porcelain=v2 -z` writes, as git documents them, with what each says
-- of a path; told apart from the parser.
use kwt.Common.{
  ℕ, ◌+◌, ◌*◌, ◌≤◌, ◌≡◌, ◌≢◌, ◌⊎◌, Bool, true, false, List, [], ◌∷◌, ◌++◌, Text, codes, length, All,
  Lacks, spaced, Option, none, some,
}
use kwt.Status.Porcelain.{
  FileState, unmodified, modified, added, deleted, renamed, copied, conflicted, untracked,
  FileChange, space,
}

pub data Letter : Type 0 where
  still edited retyped created removed moved duplicated : Letter

abbrev pub letter : Letter → ℕ
letter still = b'.'
letter edited = b'M'
letter retyped = b'T'
letter created = b'A'
letter removed = b'D'
letter moved = b'R'
letter duplicated = b'C'

abbrev pub state_of : Letter → FileState
state_of still = unmodified
state_of edited = modified
state_of retyped = modified
state_of created = added
state_of removed = deleted
state_of moved = renamed
state_of duplicated = copied

-- No submodule, or one with a changed commit, modified content, untracked files.
pub data Submodule : Type 0 where
  not_submodule : Submodule
  submodule : Bool → Bool → Bool → Submodule

abbrev pub flag : Bool → ℕ → ℕ
flag true x = x
flag false x = b'.'

abbrev pub print_submodule : Submodule → Text
print_submodule not_submodule = codes "N..."
print_submodule (submodule x y z) = b'S' ∷ flag x b'C' ∷ flag y b'M' ∷ flag z b'U' ∷ []

abbrev pub IsOctal : ℕ → Type 0
IsOctal x = (b'0' ≤ x) × (x ≤ b'7')

abbrev pub IsMode : Text → Type 0
IsMode f = (length f ≡ 6) × All IsOctal f

abbrev pub IsHex : ℕ → Type 0
IsHex x = ((b'0' ≤ x) × (x ≤ b'9')) ⊎ ((b'a' ≤ x) × (x ≤ b'f')) ⊎ ((b'A' ≤ x) × (x ≤ b'F'))

abbrev pub IsObjectId : Text → Type 0
IsObjectId f = ((length f ≡ 40) ⊎ (length f ≡ 64)) × All IsHex f

pub data Unmerged : Type 0 where
  dd au ud ua du aa uu : Unmerged

abbrev pub unmerged_code : Unmerged → Text
unmerged_code dd = codes "DD"
unmerged_code au = codes "AU"
unmerged_code ud = codes "UD"
unmerged_code ua = codes "UA"
unmerged_code du = codes "DU"
unmerged_code aa = codes "AA"
unmerged_code uu = codes "UU"

-- The percentage of a rename or copy, one to three digits.
pub data Percent : Type 0 where
  one : ℕ → Percent
  two : ℕ → ℕ → Percent
  three : ℕ → ℕ → ℕ → Percent

abbrev pub percent : Percent → ℕ
percent (one x) = x
percent (two x y) = x * 10 + y
percent (three x y z) = (x * 10 + y) * 10 + z

abbrev pub digits : Percent → Text
digits (one x) = (b'0' + x) ∷ []
digits (two x y) = (b'0' + x) ∷ (b'0' + y) ∷ []
digits (three x y z) = (b'0' + x) ∷ (b'0' + y) ∷ (b'0' + z) ∷ []

abbrev pub IsPercent : Percent → Type 0
IsPercent (one x) = x ≤ 9
IsPercent (two x y) = (x ≤ 9) × (y ≤ 9)
IsPercent (three x y z) = (x ≤ 9) × (y ≤ 9) × (z ≤ 9) × ((x * 10 + y) * 10 + z ≤ 100)

-- What the lines of changed paths have in common: submodule state, three modes, two object names.
pub record Meta : Type 0 where
  pub sub : Submodule
  pub mode_1 : Text
  pub mode_2 : Text
  pub mode_3 : Text
  pub id_1 : Text
  pub id_2 : Text

pub record IsMeta (x : Meta) : Type 0 where
  pub mode_1 : IsMode x.mode_1
  pub mode_2 : IsMode x.mode_2
  pub mode_3 : IsMode x.mode_3
  pub id_1 : IsObjectId x.id_1
  pub id_2 : IsObjectId x.id_2

-- A path is not empty and holds no NUL.
abbrev pub IsPath : Text → Type 0
IsPath p = (p ≢ []) × Lacks 0 p

pub data Line : Type 0 where
  ordinary : Letter → Letter → Meta → Text → Line
  rename : Letter → Letter → Meta → Bool → Percent → Text → Text → Line
  unmerged : Unmerged → Meta → Text → Text → Text → Line
  untracked_path : Text → Line
  -- a header or an ignored path: its first byte and the rest
  other : ℕ → Text → Line

-- `R` for a rename, `C` for a copy.
abbrev pub score_letter : Bool → Letter
score_letter true = moved
score_letter false = duplicated

abbrev pub IsLine : Line → Type 0
IsLine (ordinary x y i p) = IsMeta i × IsPath p
IsLine (rename x y i s n p o) =
    ((x ≡ score_letter s) ⊎ (y ≡ score_letter s)) × IsMeta i × IsPercent n × IsPath p × IsPath o
IsLine (unmerged u i m id p) = IsMeta i × IsMode m × IsObjectId id × IsPath p
IsLine (untracked_path p) = IsPath p
IsLine (other tag s) =
    (tag ≢ 0) × (tag ≢ b'1') × (tag ≢ b'2') × (tag ≢ b'?') × (tag ≢ b'u') × Lacks 0 s

abbrev pub modes_and_ids : Meta → List Text
modes_and_ids i = print_submodule i.sub ∷ i.mode_1 ∷ i.mode_2 ∷ i.mode_3 ∷ i.id_1 ∷ i.id_2 ∷ []

-- The fields in front of the path.
abbrev pub ordinary_fields : Letter → Letter → Meta → List Text
ordinary_fields x y i = codes "1" ∷ (letter x ∷ letter y ∷ []) ∷ modes_and_ids i

abbrev pub rename_fields : Letter → Letter → Meta → Bool → Percent → List Text
rename_fields x y i s n =
    codes "2"
    ∷ (letter x ∷ letter y ∷ [])
    ∷ print_submodule i.sub
    ∷ i.mode_1
    ∷ i.mode_2
    ∷ i.mode_3
    ∷ i.id_1
    ∷ i.id_2
    ∷ (letter (score_letter s) ∷ digits n)
    ∷ []

abbrev pub unmerged_fields : Unmerged → Meta → Text → Text → List Text
unmerged_fields u i m id =
    codes "u"
    ∷ unmerged_code u
    ∷ print_submodule i.sub
    ∷ i.mode_1
    ∷ i.mode_2
    ∷ i.mode_3
    ∷ m
    ∷ i.id_1
    ∷ i.id_2
    ∷ id
    ∷ []

-- The line behind which the first NUL stands, and what follows that NUL before the next line.
unfoldable pub print_line : Line → Text
unfolding spaced
print_line (ordinary x y i p) = spaced space (ordinary_fields x y i) p
print_line (rename x y i s n p o) = spaced space (rename_fields x y i s n) p
print_line (unmerged u i m id p) = spaced space (unmerged_fields u i m id) p
print_line (untracked_path p) = b'?' ∷ space ∷ p
print_line (other tag s) = tag ∷ s

abbrev pub behind : Line → Text
behind (rename x y i s n p o) = o ++ 0 ∷ []
behind _ = []

unfoldable pub print : List Line → Text
unfolding print_line
print [] = []
print (l ∷ ls) = print_line l ++ 0 ∷ (behind l ++ print ls)

abbrev entry : Text → Text → FileState → FileState → FileChange
entry p o x y = record { path = p; original_path = o; index = x; worktree = y }

abbrev pub change : Line → Option FileChange
change (ordinary x y i p) = some (entry p [] (state_of x) (state_of y))
change (rename x y i s n p o) = some (entry p o (state_of x) (state_of y))
change (unmerged u i m id p) = some (entry p [] conflicted conflicted)
change (untracked_path p) = some (entry p [] unmodified untracked)
change (other tag s) = none

abbrev pub with_change : Option FileChange → List FileChange → List FileChange
with_change none cs = cs
with_change (some c) cs = c ∷ cs

-- What the lines say, in their order.
abbrev pub changes : List Line → List FileChange
changes [] = []
changes (l ∷ ls) = with_change (change l) (changes ls)
