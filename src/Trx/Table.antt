-- ===== src/Trx/Table.antt =====
-- `find_index` and `find_empty_record` of src/trx_init.c, and what they find.
use mathlib.Core.Path.{subst, sym}
use soft_bts.Base.{
  ℕ, zero, suc, ◌+◌, ◌<◌, ◌≡◌, ◌≢◌, refl, ap, Bool, true, false, Option, none, some, List, [], ◌∷◌,
  ◌==◌, if◌then◌else◌, Bool-cases, inl, inr, arith, get_elem?, ==_iff, ◌∙◌, ◌++◌, map, length,
}

-- A descriptor; `none` is the -1 of an entry that is not in use.
abbrev pub Fd : Type 0
Fd = Option ℕ

abbrev pub same_fd : Fd → Fd → Bool
same_fd none none = true
same_fd (some a) (some b) = a == b
same_fd _ _ = false

-- The loop from entry `i` on.
find_from : ℕ → Fd → List Fd → Option ℕ
find_from i sd [] = none
find_from i sd (fd ∷ fds) = if same_fd fd sd then some i else find_from (i + 1) sd fds

unfoldable pub find_index : Fd → List Fd → Option ℕ
unfolding find_from
find_index sd fds = find_from 0 sd fds

unfoldable pub find_empty_record : List Fd → Option ℕ
unfolding find_from
find_empty_record fds = find_from 0 none fds

pub same_fd_eq : (a b : Fd) → same_fd a b ≡ true → a ≡ b
same_fd_eq none none h = refl
same_fd_eq none (some b) h = cc
same_fd_eq (some a) none h = cc
same_fd_eq (some a) (some b) h = ap some ((==_iff a b).0 h)

-- What the loop finds: the entry holds the descriptor, and no entry before it does.
pub record Finds (sd : Fd) (fds : List Fd) (k : ℕ) : Type 0 where
  pub here : get_elem? fds k ≡ some sd
  pub first : (j : ℕ) → j < k → get_elem? fds j ≢ some sd

same_fd_self : (a : Fd) → same_fd a a ≡ true
same_fd_self none = refl
same_fd_self (some a) = (==_iff a a).1 refl

same_fd_ne : (a b : Fd) → same_fd a b ≡ false → some a ≢ some b
same_fd_ne a b h e = cc (same_fd_self a)

Finds-suc :
    (sd fd : Fd) (fds : List Fd) (k : ℕ)
    → same_fd fd sd ≡ false
    → Finds sd fds k
    → Finds sd (fd ∷ fds) (suc k)
Finds-suc sd fd fds k ne f = record { here = f.here; first = before }
  where
    before : (j : ℕ) → j < suc k → get_elem? (fd ∷ fds) j ≢ some sd
    before zero h = same_fd_ne fd sd ne
    before (suc j) h = f.first j (omega arith)

find_from-Finds :
    (i : ℕ) (sd : Fd) (fds : List Fd) (n : ℕ)
    → find_from i sd fds ≡ some n
    → (k : ℕ) × (n ≡ i + k) × Finds sd fds k
unfolding find_from
find_from-Finds i sd [] n h = cc
find_from-Finds i sd (fd ∷ fds) n h = elim (Bool-cases (same_fd fd sd)) [
  | inl hit ↦ (
    0,
    ground arith,
    record { here = ap some (same_fd_eq fd sd hit); first = λ j lt. absurd (omega arith) },
  )
  | inr miss ↦
      let rest = find_from-Finds (i + 1) sd fds n (rw miss at h) in
      (suc rest.0, omega (arith, rest.1), Finds-suc sd fd fds rest.0 miss rest.2)
]

-- Where the loop finds nothing, no entry holds the descriptor.
find_from-none :
    (i : ℕ) (sd : Fd) (fds : List Fd)
    → find_from i sd fds ≡ none
    → (j : ℕ) → get_elem? fds j ≢ some sd
unfolding find_from
find_from-none i sd [] h j = λ e. cc
find_from-none i sd (fd ∷ fds) h zero = same_fd_ne fd sd (ground arith)
find_from-none i sd (fd ∷ fds) h (suc j) = find_from-none (i + 1) sd fds (ground arith) j

-- `find_index` gives the first entry with the descriptor.
pub find_index-Finds :
    (sd : Fd) (fds : List Fd) {n : ℕ} → find_index sd fds ≡ some n → Finds sd fds n
unfolding find_index
find_index-Finds sd fds {n} h = subst (Finds sd fds) (sym (omega (arith, found.1))) found.2
  where
    found : (k : ℕ) × (n ≡ 0 + k) × Finds sd fds k
    found = find_from-Finds 0 sd fds n h

-- -1 is returned only where no entry has it.
pub find_index-none :
    (sd : Fd) (fds : List Fd) → find_index sd fds ≡ none → (j : ℕ) → get_elem? fds j ≢ some sd
unfolding find_index
find_index-none sd fds h = find_from-none 0 sd fds h

pub find_empty_record-Finds :
    (fds : List Fd) {n : ℕ} → find_empty_record fds ≡ some n → Finds none fds n
unfolding find_empty_record find_index
find_empty_record-Finds fds h = find_index-Finds none fds h

find_from-behind :
    (i : ℕ) (sds : List ℕ) (fds : List Fd)
    → find_from i none (map some sds ++ none ∷ fds) ≡ some (i + length sds)
unfolding find_from
find_from-behind i [] fds = ap some (omega arith)
find_from-behind i (sd ∷ sds) fds = find_from-behind (i + 1) sds fds ∙ ap some (omega arith)

-- The first entry that is not in use is found, behind any number of those that are.
pub find_empty_record-behind :
    (sds : List ℕ) (fds : List Fd)
    → find_empty_record (map some sds ++ none ∷ fds) ≡ some (length sds)
unfolding find_empty_record
find_empty_record-behind sds fds = find_from-behind 0 sds fds ∙ ap some (omega arith)

pub find_empty_record-none :
    (fds : List Fd) → find_empty_record fds ≡ none → (j : ℕ) → get_elem? fds j ≢ some none
unfolding find_empty_record find_index
find_empty_record-none fds h = find_index-none none fds h
