-- ===== src/Common/Dicts.antt =====
-- Go's maps with strings as keys, as association lists.
use mathlib.Core.Path.{◌≡◌, refl, sym, subst}
use mathlib.Core.Logic.{inl, inr}
use mathlib.Core.Bool.{false}
use mathlib.Core.List.{List, [], ◌∷◌}
use mathlib.Core.Option.{Option, none, some}
use native.Mathlib.Omega.{arith}
use kwt.Common.Tests.{if◌then◌else◌, Bool-cases}
use kwt.Common.Lists.{All}
use kwt.Common.Strings.{Text, ◌=?◌, eq_sound, eq_refl}

abbrev pub Dict {ℓ} : Type ℓ → Type ℓ
Dict A = List (Text × A)

module _ {ℓ} {A : Type ℓ} where
  unfoldable pub lookup : Text → Dict A → Option A
  unfolding ◌=?◌
  lookup k [] = none
  lookup k (e ∷ d) = if k =? e.0 then some e.1 else lookup k d

  -- `m[k] = a`.
  unfoldable pub insert : Text → A → Dict A → Dict A
  unfolding ◌=?◌
  insert k a [] = (k, a) ∷ []
  insert k a (e ∷ d) = if k =? e.0 then (k, a) ∷ d else e ∷ insert k a d

  -- `delete(m, k)`.
  unfoldable pub erase : Text → Dict A → Dict A
  unfolding ◌=?◌
  erase k [] = []
  erase k (e ∷ d) = if k =? e.0 then erase k d else e ∷ erase k d

  pub lookup-insert_self : (k : Text) (a : A) (d : Dict A) → lookup k (insert k a d) ≡ some a
  unfolding lookup insert
  lookup-insert_self k a [] = rw (eq_refl k) refl
  lookup-insert_self k a (e ∷ d) = elim (Bool-cases (k =? e.0)) [
    | inl h ↦ rw (h, eq_refl k) refl
    | inr h ↦ rw (h, h) (lookup-insert_self k a d)
  ]

  pub lookup-insert_ne :
      (j k : Text) (a : A) (d : Dict A) → (j =? k) ≡ false → lookup j (insert k a d) ≡ lookup j d
  unfolding lookup insert
  lookup-insert_ne j k a [] h = rw h refl
  lookup-insert_ne j k a (e ∷ d) h = ground (arith, lookup-insert_ne j k a d h, eq_sound k e.0)

  pub lookup-erase_self : (k : Text) (d : Dict A) → lookup k (erase k d) ≡ none
  unfolding lookup erase
  lookup-erase_self k [] = refl
  lookup-erase_self k (e ∷ d) = ground (arith, lookup-erase_self k d)

  pub lookup-erase_ne :
      (j k : Text) (d : Dict A) → (j =? k) ≡ false → lookup j (erase k d) ≡ lookup j d
  unfolding lookup erase
  lookup-erase_ne j k [] h = refl
  lookup-erase_ne j k (e ∷ d) h = ground (arith, lookup-erase_ne j k d h, eq_sound k e.0)

  -- What holds of the entries holds of them after a change.
  pub All-insert {κ} :
      (P : Text × A → Type κ) (k : Text) (a : A) (d : Dict A)
      → P (k, a)
      → All P d
      → All P (insert k a d)
  unfolding insert
  All-insert P k a [] p h = (p, tt)
  All-insert P k a (e ∷ d) p h = ground (arith, All-insert P k a d p h.1)

  pub All-erase {κ} : (P : Text × A → Type κ) (k : Text) (d : Dict A) → All P d → All P (erase k d)
  unfolding erase
  All-erase P k [] h = tt
  All-erase P k (e ∷ d) h = ground (arith, All-erase P k d h.1)

  -- No key stands twice.
  abbrev pub IsKeyed : Dict A → Type 0
  IsKeyed [] = Unit
  IsKeyed (e ∷ d) = All (λ f. (f.0 =? e.0) ≡ false) d × IsKeyed d

  insert-IsKeyed-All :
      (j k : Text) (a : A) (d : Dict A)
      → (k =? j) ≡ false
      → All (λ f. (f.0 =? j) ≡ false) d
      → All (λ f. (f.0 =? j) ≡ false) (insert k a d)
  insert-IsKeyed-All j k a d n h = All-insert (λ f. (f.0 =? j) ≡ false) k a d n h

  pub insert-IsKeyed : (k : Text) (a : A) (d : Dict A) → IsKeyed d → IsKeyed (insert k a d)
  unfolding insert
  insert-IsKeyed k a [] h = (tt, tt)
  insert-IsKeyed k a (e ∷ d) h = elim (Bool-cases (k =? e.0)) [
    | inl same ↦
        rw same (subst (λ j. All (λ f. (f.0 =? j) ≡ false) d) (sym (eq_sound k e.0 same)) h.0, h.1)
    | inr n ↦ rw n (insert-IsKeyed-All e.0 k a d n h.0, insert-IsKeyed k a d h.1)
  ]

  pub erase-IsKeyed : (k : Text) (d : Dict A) → IsKeyed d → IsKeyed (erase k d)
  unfolding erase
  erase-IsKeyed k [] h = tt
  erase-IsKeyed k (e ∷ d) h = elim (Bool-cases (k =? e.0)) [
    | inl same ↦ rw same (erase-IsKeyed k d h.1)
    | inr n ↦ rw n (All-erase (λ f. (f.0 =? e.0) ≡ false) k d h.0, erase-IsKeyed k d h.1)
  ]
