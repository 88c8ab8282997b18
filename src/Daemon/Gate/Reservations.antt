-- ===== src/Daemon/Gate/Reservations.antt =====
-- The map of reservations: the ids in it fall along the list.
use kwt.Common.{ℕ, ◌+◌, ◌≤◌, ◌<◌, ◌≡◌, refl, not, none, some, List, [], ◌∷◌, arith, count}
use kwt.Daemon.Gate.{ReservationKind, work, lease, is_lease, find, remove}

abbrev pub Reservations : Type 0
Reservations = List (ℕ × ReservationKind)

abbrev pub leases_in : Reservations → ℕ
leases_in = count λ r. is_lease r.1

abbrev pub works_in : Reservations → ℕ
works_in = count λ r. not (is_lease r.1)

abbrev pub Below : ℕ → Reservations → Type 0
Below n [] = Unit {0}
Below n ((j, k) ∷ rs) = (j < n) × Below j rs

pub Below-mono : (m n : ℕ) (rs : Reservations) → m ≤ n → Below m rs → Below n rs
Below-mono m n [] h b = tt
Below-mono m n ((j, k) ∷ rs) h b = (omega arith, b.1)

pub remove_above : (id n : ℕ) (rs : Reservations) → Below n rs → n ≤ id → remove id rs ≡ rs
unfolding remove
remove_above id n [] b h = refl
remove_above id n ((j, k) ∷ rs) b h = ground (arith, remove_above id j rs b.1)

pub remove-Below : (id n : ℕ) (rs : Reservations) → Below n rs → Below n (remove id rs)
unfolding remove
remove-Below id n [] b = tt
remove-Below id n ((j, k) ∷ rs) b =
    ground (arith, remove-Below id j rs b.1, Below-mono j n (remove id rs))

pub find_above : (id n : ℕ) (rs : Reservations) → Below n rs → n ≤ id → find id rs ≡ none
unfolding find
find_above id n [] b h = refl
find_above id n ((j, k) ∷ rs) b h = ground (arith, find_above id j rs b.1)

pub find-remove : (id : ℕ) (rs : Reservations) → find id (remove id rs) ≡ none
unfolding find remove
find-remove id [] = refl
find-remove id ((j, k) ∷ rs) = ground (arith, find-remove id rs)

-- The entry that is taken out is the one that the counter of its kind loses.
pub leases_in-remove_lease :
    (id n : ℕ) (rs : Reservations)
    → Below n rs
    → find id rs ≡ some lease
    → (leases_in rs ≡ leases_in (remove id rs) + 1) × (works_in rs ≡ works_in (remove id rs))
unfolding find remove
leases_in-remove_lease id n [] b h = ground arith
leases_in-remove_lease id n ((j, lease) ∷ rs) b h =
    ground (arith, leases_in-remove_lease id j rs b.1, remove_above id j rs b.1)
leases_in-remove_lease id n ((j, work) ∷ rs) b h =
    ground (arith, leases_in-remove_lease id j rs b.1, remove_above id j rs b.1)

pub works_in-remove_work :
    (id n : ℕ) (rs : Reservations)
    → Below n rs
    → find id rs ≡ some work
    → (works_in rs ≡ works_in (remove id rs) + 1) × (leases_in rs ≡ leases_in (remove id rs))
unfolding find remove
works_in-remove_work id n [] b h = ground arith
works_in-remove_work id n ((j, lease) ∷ rs) b h =
    ground (arith, works_in-remove_work id j rs b.1, remove_above id j rs b.1)
works_in-remove_work id n ((j, work) ∷ rs) b h =
    ground (arith, works_in-remove_work id j rs b.1, remove_above id j rs b.1)

pub none_in : (rs : Reservations) → leases_in rs ≡ 0 → works_in rs ≡ 0 → rs ≡ []
none_in [] l w = refl
none_in ((j, lease) ∷ rs) l w = absurd (omega arith)
none_in ((j, work) ∷ rs) l w = absurd (omega arith)
