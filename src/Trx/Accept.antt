-- ===== src/Trx/Accept.antt =====
-- `accept_connection` of src/trx_init.c on each of its paths.
use soft_bts.Base.{
  ℕ, ◌≡◌, ◌≢◌, refl, true, Option, none, some, List, ◌∷◌, get_elem?, set, length, length-set, arith,
  ◌&&◌, ◌∙◌, ◌++◌, ap, map, [], if◌then◌else◌, Bool-cases, Option-cases, inl, inr,
}
use soft_bts.Trx.Table.{Fd, find_empty_record, find_empty_record-Finds, find_empty_record-behind}
use soft_bts.Trx.{
  Action, wrote, closed, listen, Trx, Answers, id_req, full_text, accept_connection, take_entry,
  place_connection,
}

set-behind :
    (sds : List ℕ) (fds : List Fd) (fd new : Fd)
    → set (map some sds ++ fd ∷ fds) (length sds) new ≡ map some sds ++ new ∷ fds
set-behind [] fds fd new = refl
set-behind (sd ∷ sds) fds fd new = ap (λ xs. some sd ∷ xs) (set-behind sds fds fd new)

-- What is done with a caller that an entry takes, newest first.
abbrev pub done : Answers → ℕ → ℕ → List Action → List Action
done ans i sd actions =
    if ans.registers
    then (if ans.writes
        then wrote sd id_req ∷ listen i ∷ actions
        else closed sd ∷ wrote sd id_req ∷ listen i ∷ actions)
    else closed sd ∷ actions

take_entry_lem :
    (ans : Answers) (i sd : ℕ) (t : Trx)
    → take_entry ans i sd t ≡ (
      ans.registers && ans.writes,
      record t { fds = set t.fds i (some sd); actions = done ans i sd t.actions },
    )
unfolding take_entry
take_entry_lem ans i sd t = elim (Bool-cases ans.registers) [
  | inl reg ↦ elim (Bool-cases ans.writes) [
    | inl wri ↦ rw (reg, wri) refl
    | inr wri ↦ rw (reg, wri) refl
  ]
  | inr reg ↦ rw reg refl
]

-- Whichever entries behind the first free one are in use, and whether the registration and the write
-- succeed or fail: a caller takes the first free entry, and no other one changes. It is asked who it is
-- once it is listened to; where one of the two calls fails its descriptor is closed, and the function
-- fails, but the entry keeps it.
pub accept_connection-first :
    (ans : Answers) (t : Trx) (sds : List ℕ) (fds : List Fd) (sd : ℕ)
    → t.fds ≡ map some sds ++ none ∷ fds
    → ans.accepted ≡ some sd
    → accept_connection ans t ≡ (
      ans.registers && ans.writes,
      record t {
        fds = map some sds ++ some sd ∷ fds;
        actions = done ans (length sds) sd t.actions;
      },
    )
unfolding accept_connection place_connection
accept_connection-first ans t sds fds sd e a =
    ap (λ i. place_connection ans i ans.accepted t)
      (ap find_empty_record e ∙ find_empty_record-behind sds fds)
    ∙ ap (λ c. place_connection ans (some (length sds)) c t) a
    ∙ take_entry_lem ans (length sds) sd t
    ∙ ap
        (λ l. (
          ans.registers && ans.writes,
          record t { fds = l; actions = done ans (length sds) sd t.actions },
        ))
        (ap (λ l. set l (length sds) (some sd)) e ∙ set-behind sds fds none (some sd))

-- In a full table the connection is told so and closed, and the table stays as it is.
pub accept_connection-full :
    (ans : Answers) (t : Trx) (sd : ℕ)
    → ((j : ℕ) → get_elem? t.fds j ≢ some none)
    → ans.accepted ≡ some sd
    → accept_connection ans t
      ≡ (true, record t { actions = closed sd ∷ wrote sd full_text ∷ t.actions })
unfolding accept_connection
accept_connection-full ans t sd full a = elim (Option-cases (find_empty_record t.fds)) [
  | inl e ↦ rw (e, a, accept_connection)
  | inr (i, e) ↦ absurd (full i (find_empty_record-Finds t.fds e).here)
]

length-place_connection :
    (ans : Answers) (i sd : Option ℕ) (t : Trx)
    → length (place_connection ans i sd t).1.fds ≡ length t.fds
unfolding place_connection
length-place_connection ans i none t = refl
length-place_connection ans none (some sd) t = refl
length-place_connection ans (some i) (some sd) t = ground (arith, length-set t.fds i (some sd))

-- The table keeps its size on every path.
pub length-accept_connection :
    (ans : Answers) (t : Trx) → length (accept_connection ans t).1.fds ≡ length t.fds
unfolding accept_connection
length-accept_connection ans t =
    length-place_connection ans (find_empty_record t.fds) ans.accepted t
