-- ===== src/Status/Changes/Paths.antt =====
-- The paths of the coalesced files.
use kwt.Common.{
  ℕ, ◌≤◌, ◌≡◌, refl, sym, ◌∙◌, Bool, true, false, ◌||◌, List, [], ◌∷◌, Text, if◌then◌else◌, ◌=?◌,
  eq_sound, eq_refl, ◌==◌, ltb, count, any, arith, Result, ok, err, Bool-cases, inl, inr, ap,
}
use kwt.Status.Porcelain.{FileChange}
use kwt.Status.Changes.{CoalesceError, merge, add_file, coalesce_loop, coalesce_file_changes}

abbrev pub has_path : Text → FileChange → Bool
has_path p f = f.path =? p

merge-path : (c f m : FileChange) → merge c f ≡ ok m → m.path ≡ c.path
unfolding merge
merge-path c f m h = ground arith

abbrev at_least_one : ℕ → ℕ
at_least_one n = if n == 0 then 1 else n

add_file_same :
    (p : Text) (f c : FileChange) (cs out : List FileChange) (x : Result CoalesceError FileChange)
    → c.path ≡ f.path
    → merge c f ≡ x
    → add_file f (c ∷ cs) ≡ ok out
    → count (has_path p) out ≡ (
        if f.path =? p
        then at_least_one (count (has_path p) (c ∷ cs))
        else count (has_path p) (c ∷ cs))
unfolding add_file
add_file_same p f c cs out (err e) same s h = ground (arith, eq_refl f.path)
add_file_same p f c cs out (ok m) same s h = ground (arith, eq_refl f.path, merge-path c f m s)

not_both : (c f p : Text) → (c =? f) ≡ false → (f =? p) ≡ true → (c =? p) ≡ false
not_both c f p other same = sym (ap (λ q. c =? q) (eq_sound f p same)) ∙ other

add_file_other :
    (p : Text) (f c : FileChange) (cs out : List FileChange)
    (x : Result CoalesceError (List FileChange))
    → (c.path =? f.path) ≡ false
    → add_file f cs ≡ x
    → ((rest : List FileChange)
        → x ≡ ok rest
        → count (has_path p) rest
          ≡ (if f.path =? p then at_least_one (count (has_path p) cs) else count (has_path p) cs))
    → add_file f (c ∷ cs) ≡ ok out
    → count (has_path p) out ≡ (
        if f.path =? p
        then at_least_one (count (has_path p) (c ∷ cs))
        else count (has_path p) (c ∷ cs))
unfolding add_file
add_file_other p f c cs out (err e) other s rest h = ground arith
add_file_other p f c cs out (ok more) other s rest h =
    ground (arith, rest more refl, not_both c.path f.path p other)

add_file-count :
    (p : Text) (f : FileChange) (cs out : List FileChange)
    → add_file f cs ≡ ok out
    → count (has_path p) out
      ≡ (if f.path =? p then at_least_one (count (has_path p) cs) else count (has_path p) cs)
add_file-count p f [] out h = unfold add_file in ground arith
add_file-count p f (c ∷ cs) out h = elim (Bool-cases (c.path =? f.path)) [
  | inl same ↦ add_file_same p f c cs out (merge c f) (eq_sound _ _ same) refl h
  | inr other ↦
      add_file_other p f c cs out (add_file f cs) other refl
        (λ rest s. add_file-count p f cs rest s) h
]

abbrev Counted : Text → List FileChange → List FileChange → List FileChange → Type 0
Counted p fs done out =
    count (has_path p) done ≤ 1
    → count (has_path p) out
      ≡ (if ltb 0 (count (has_path p) done) || any (has_path p) fs then 1 else 0)

after_one :
    (p : Text) (f : FileChange) (fs done out : List FileChange)
    (x : Result CoalesceError (List FileChange))
    → add_file f done ≡ x
    → coalesce_loop done (f ∷ fs) ≡ ok out
    → ((next : List FileChange) → coalesce_loop next fs ≡ ok out → Counted p fs next out)
    → Counted p (f ∷ fs) done out
unfolding coalesce_loop
after_one p f fs done out (err e) t s later h = ground arith
after_one p f fs done out (ok next) t s later h =
    let added = add_file-count p f done next t in
    let few : count (has_path p) next ≤ 1 = ground (arith, added) in
    ground (arith, added, later next (ground arith) few)

coalesce_loop-count :
    (p : Text) (fs done out : List FileChange)
    → coalesce_loop done fs ≡ ok out
    → Counted p fs done out
coalesce_loop-count p [] done out s h = unfold coalesce_loop in ground arith
coalesce_loop-count p (f ∷ fs) done out s h =
    after_one p f fs done out (add_file f done) refl s
      (λ next t. coalesce_loop-count p fs next out t) h

-- When the files are coalesced, each path of the files is the path of exactly one file of the result,
-- and no other path is.
pub coalesce_file_changes-count :
    (files out : List FileChange) (p : Text)
    → coalesce_file_changes files ≡ ok out
    → count (has_path p) out ≡ (if any (has_path p) files then 1 else 0)
coalesce_file_changes-count files out p h =
    coalesce_loop-count p files [] out (unfold coalesce_file_changes in h) (omega arith)
