-- ===== src/Trx/Capacity.antt =====
-- `accept_connection` of src/trx_init.c over a sequence of callers: how the table fills.
use soft_bts.Base.{
  ℕ, zero, suc, ◌+◌, ◌-◌, ◌≡◌, ◌≢◌, refl, ap, ◌∙◌, Option, none, some, List, [], ◌∷◌, get_elem?,
  set, length, arith, Option-cases, inl, inr,
}
use soft_bts.Trx.Table.{Fd, find_empty_record, find_empty_record-Finds, find_empty_record-none}
use soft_bts.Trx.Accept.{length-accept_connection}
use soft_bts.Trx.{Trx, Answers, accept_connection, take_entry, place_connection}

-- The entries that are not in use.
unfoldable pub free : List Fd → ℕ
free [] = 0
free (none ∷ fds) = 1 + free fds
free (some sd ∷ fds) = free fds

-- One for a caller that `accept` gives a descriptor for.
abbrev pub one : Option ℕ → ℕ
one none = 0
one (some sd) = 1

abbrev pub accepts : List Answers → ℕ
accepts [] = 0
accepts (ans ∷ rest) = one ans.accepted + accepts rest

pub call_all : List Answers → Trx → Trx
call_all [] t = t
call_all (ans ∷ rest) t = call_all rest (accept_connection ans t).1

pub free-set :
    (fds : List Fd) (i sd : ℕ)
    → get_elem? fds i ≡ some none
    → 1 + free (set fds i (some sd)) ≡ free fds
unfolding free
free-set [] i sd e = cc
free-set (none ∷ fds) zero sd e = refl
free-set (some k ∷ fds) zero sd e = cc
free-set (none ∷ fds) (suc i) sd e = ap (λ n. 1 + n) (free-set fds i sd e)
free-set (some k ∷ fds) (suc i) sd e = free-set fds i sd e

pub free-full : (fds : List Fd) → ((j : ℕ) → get_elem? fds j ≢ some none) → free fds ≡ 0
unfolding free
free-full [] full = refl
free-full (none ∷ fds) full = absurd (full 0 refl)
free-full (some k ∷ fds) full = free-full fds (λ j. full (suc j))

set-kept :
    (fds : List Fd) (i j sd k : ℕ)
    → get_elem? fds i ≡ some none
    → get_elem? fds j ≡ some (some k)
    → get_elem? (set fds i (some sd)) j ≡ some (some k)
set-kept [] i j sd k e h = cc
set-kept (fd ∷ fds) zero zero sd k e h = cc
set-kept (fd ∷ fds) zero (suc j) sd k e h = h
set-kept (fd ∷ fds) (suc i) zero sd k e h = h
set-kept (fd ∷ fds) (suc i) (suc j) sd k e h = set-kept fds i j sd k e h

-- Whatever the calls of the system answer, a free entry takes the descriptor.
pub fds-take_entry :
    (ans : Answers) (i sd : ℕ) (t : Trx) → (take_entry ans i sd t).1.fds ≡ set t.fds i (some sd)
unfolding take_entry
fds-take_entry ans i sd t = ground arith

-- What one caller does to the table: the count of free entries, and the entries in use.
abbrev Fills : ℕ → List Fd → List Fd → Type 0
Fills n fds after =
    (free after ≡ free fds - n)
    × ((j sd : ℕ) → get_elem? fds j ≡ some (some sd) → get_elem? after j ≡ some (some sd))

Fills-take_entry :
    (ans : Answers) (t : Trx) (i sd : ℕ)
    → get_elem? t.fds i ≡ some none
    → Fills 1 t.fds (take_entry ans i sd t).1.fds
Fills-take_entry ans t i sd e =
    let less = free-set t.fds i sd e in
    rw (fds-take_entry ans i sd t) (omega arith, λ j k h. set-kept t.fds i j sd k e h)

Fills-place_connection :
    (ans : Answers) (t : Trx) (sd : Option ℕ)
    → Fills (one sd) t.fds (place_connection ans (find_empty_record t.fds) sd t).1.fds
unfolding place_connection
Fills-place_connection ans t none = (omega arith, λ j k h. h)
Fills-place_connection ans t (some sd) = elim (Option-cases (find_empty_record t.fds)) [
  | inl e ↦
      let zero_free = free-full t.fds (find_empty_record-none t.fds e) in
      rw e (omega arith, λ j k h. h)
  | inr (i, e) ↦ rw e (Fills-take_entry ans t i sd (find_empty_record-Finds t.fds e).here)
]

-- However many callers there are, and whether or not their registrations and writes succeed: each
-- one that is accepted takes an entry as long as one is free, so that four of them leave none of
-- the four; no entry in use is touched, and the table keeps its size.
pub call_all-free :
    (callers : List Answers) (t : Trx)
    → (free (call_all callers t).fds ≡ free t.fds - accepts callers)
      × ((j sd : ℕ)
          → get_elem? t.fds j ≡ some (some sd)
          → get_elem? (call_all callers t).fds j ≡ some (some sd))
      × (length (call_all callers t).fds ≡ length t.fds)
unfolding call_all accept_connection
call_all-free [] t = (omega arith, λ j k h. h, refl)
call_all-free (ans ∷ rest) t =
    let t1 = (accept_connection ans t).1 in
    let (fewer, kept) = Fills-place_connection ans t ans.accepted in
    let (fewer', kept', same) = call_all-free rest t1 in
    (
      omega (arith, fewer, fewer'),
      λ j k h. kept' j k (kept j k h),
      same ∙ length-accept_connection ans t,
    )

-- The entries after a caller, by whether one is free and whether it is accepted.
abbrev seat : Option ℕ → Option ℕ → List Fd → List Fd
seat (some i) (some sd) fds = set fds i (some sd)
seat _ _ fds = fds

abbrev pub seats : Answers → List Fd → List Fd
seats ans fds = seat (find_empty_record fds) ans.accepted fds

fds-place_connection :
    (ans : Answers) (i sd : Option ℕ) (t : Trx)
    → (place_connection ans i sd t).1.fds ≡ seat i sd t.fds
unfolding place_connection
fds-place_connection ans none none t = refl
fds-place_connection ans (some i) none t = refl
fds-place_connection ans none (some sd) t = refl
fds-place_connection ans (some i) (some sd) t = fds-take_entry ans i sd t

pub fds-accept_connection :
    (ans : Answers) (t : Trx) → (accept_connection ans t).1.fds ≡ seats ans t.fds
unfolding accept_connection
fds-accept_connection ans t = fds-place_connection ans (find_empty_record t.fds) ans.accepted t
