-- ===== src/Common/Orders.antt =====
-- Go's order on strings, and a sort by any order.
use Prim.Native.Nat.{ℕ, ◌+◌}
use mathlib.Core.Path.{◌≡◌, refl, ap, ◌∙◌}
use mathlib.Core.Logic.{◌⊎◌, inl, inr}
use mathlib.Core.Bool.{Bool, true, false}
use mathlib.Core.List.{List, [], ◌∷◌}
use native.Mathlib.Omega.{arith}
use kwt.Common.Tests.{◌==◌, if◌then◌else◌, ltb}
use kwt.Common.Lists.{any, total, length}
use kwt.Common.Strings.{Text}

-- `s < t`, bytewise.
unfoldable pub text_ltb : Text → Text → Bool
text_ltb [] [] = false
text_ltb [] (d ∷ t) = true
text_ltb (c ∷ s) [] = false
text_ltb (c ∷ s) (d ∷ t) = if c == d then text_ltb s t else ltb c d

pub text_ltb_irrefl : (s : Text) → text_ltb s s ≡ false
unfolding text_ltb
text_ltb_irrefl [] = refl
text_ltb_irrefl (c ∷ s) = ground (arith, text_ltb_irrefl s)

pub text_ltb_trans :
    (s t u : Text) → text_ltb s t ≡ true → text_ltb t u ≡ true → text_ltb s u ≡ true
unfolding text_ltb
text_ltb_trans [] [] u h k = ground arith
text_ltb_trans [] (d ∷ t) [] h k = ground arith
text_ltb_trans [] (d ∷ t) (e ∷ u) h k = refl
text_ltb_trans (c ∷ s) [] u h k = ground arith
text_ltb_trans (c ∷ s) (d ∷ t) [] h k = ground arith
text_ltb_trans (c ∷ s) (d ∷ t) (e ∷ u) h k = ground (arith, text_ltb_trans s t u)

pub text_ltb_total : (s t : Text) → (text_ltb s t ≡ true) ⊎ ((s ≡ t) ⊎ (text_ltb t s ≡ true))
unfolding text_ltb
text_ltb_total [] [] = inr (inl refl)
text_ltb_total [] (d ∷ t) = inl refl
text_ltb_total (c ∷ s) [] = inr (inr refl)
text_ltb_total (c ∷ s) (d ∷ t) = ground (arith, text_ltb_total s t)

module _ {ℓ} {A : Type ℓ} where
  unfoldable pub insert_by : (A → A → Bool) → A → List A → List A
  insert_by less x [] = x ∷ []
  insert_by less x (y ∷ ys) = if less y x then y ∷ insert_by less x ys else x ∷ y ∷ ys

  -- `sort.Slice`, which leaves the order of equal elements open: here the later one stays behind.
  unfoldable pub sort_by : (A → A → Bool) → List A → List A
  unfolding insert_by
  sort_by less [] = []
  sort_by less (x ∷ xs) = insert_by less x (sort_by less xs)

module _ {ℓ} {A : Type ℓ} where
  any-insert_by :
      (p : A → Bool) (less : A → A → Bool) (x : A) (xs : List A)
      → any p (insert_by less x xs) ≡ any p (x ∷ xs)
  unfolding insert_by
  any-insert_by p less x [] = refl
  any-insert_by p less x (y ∷ ys) = ground (arith, any-insert_by p less x ys)

  -- Sorting keeps what is found, and the length.
  pub any-sort_by :
      (p : A → Bool) (less : A → A → Bool) (xs : List A) → any p (sort_by less xs) ≡ any p xs
  unfolding sort_by
  any-sort_by p less [] = refl
  any-sort_by p less (x ∷ xs) =
      any-insert_by p less x (sort_by less xs)
      ∙ ap (λ b. if p x then true else b) (any-sort_by p less xs)

  total-insert_by :
      (f : A → ℕ) (less : A → A → Bool) (x : A) (xs : List A)
      → total f (insert_by less x xs) ≡ f x + total f xs
  unfolding insert_by
  total-insert_by f less x [] = refl
  total-insert_by f less x (y ∷ ys) = ground (arith, total-insert_by f less x ys)

  pub total-sort_by :
      (f : A → ℕ) (less : A → A → Bool) (xs : List A) → total f (sort_by less xs) ≡ total f xs
  unfolding sort_by
  total-sort_by f less [] = refl
  total-sort_by f less (x ∷ xs) =
      omega (arith, total-insert_by f less x (sort_by less xs), total-sort_by f less xs)

  length-total : (xs : List A) → length xs ≡ total (λ _. 1) xs
  length-total [] = refl
  length-total (x ∷ xs) = omega (arith, length-total xs)

  pub length-sort_by : (less : A → A → Bool) (xs : List A) → length (sort_by less xs) ≡ length xs
  length-sort_by less xs =
      omega (arith, length-total (sort_by less xs), total-sort_by (λ _. 1) less xs, length-total xs)
