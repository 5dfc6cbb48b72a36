-- ===== src/Globals/Lasting.antt =====
-- The names that `set_globals` gives stay the same.
use soft_bts.Base.{
  ℕ, Bool, true, false, ◌<◌, ◌≡◌, refl, ap, sym, ◌∙◌, Option, none, some, List, [], ◌∷◌, ◌++◌,
  length,
}
use mathlib.Core.List.{append-nil}
use mathlib.Core.Path.{subst}
use soft_bts.Base.Outcome.{ok}
use soft_bts.Glib.{Glib, IsLawful}
use soft_bts.Globals.{
  Directory, unset, Build, Memory, otherwise, path_separator, assign, assert_all, set_globals,
  path_of,
}

abbrev Given : Option (List ℕ) → Type 0
Given m = (text : List ℕ) × (m ≡ some text)

assert_all_inv :
    (d : Directory) (a b c e f : Option (List ℕ)) {d' : Directory}
    → assert_all d a b c e f ≡ ok d'
    → Given a × Given b × Given c × Given e × Given f × (d ≡ d')
unfolding assert_all
assert_all_inv d (some a) (some b) (some c) (some e) (some f) h =
    ((a, refl), (b, refl), (c, refl), (e, refl), (f, refl), cc)
assert_all_inv d none b c e f h = cc
assert_all_inv d (some a) none c e f h = cc
assert_all_inv d (some a) (some b) none e f h = cc
assert_all_inv d (some a) (some b) (some c) none f h = cc
assert_all_inv d (some a) (some b) (some c) (some e) none h = cc

assign-none :
    (g : Glib) (granted : Bool) (text : List ℕ)
    → Given (assign g granted text none)
    → assign g granted text none ≡ some (g.snprintf 1024 text)
unfolding assign
assign-none g true text given = refl
assign-none g false text (t, e) = cc

record AllGiven (d : Directory) : Type 0 where
  base_dir : Given d.base_dir
  mod_dir : Given d.mod_dir
  conf_dir : Given d.conf_dir
  log_dir : Given d.log_dir
  temp_dir : Given d.temp_dir

-- Where each `malloc` succeeds.
abbrev pub granted : Memory
granted = record {
  base_dir = true;
  mod_dir = true;
  conf_dir = true;
  log_dir = true;
  temp_dir = true;
}

module _ (g : Glib) (build : Build) where
  pub set_globals-granted : (d : Directory) × (set_globals g build granted unset ≡ ok d)
  unfolding set_globals assign assert_all
  set_globals-granted = (_, refl)

  set_globals-AllGiven :
      (memory : Memory) (d : Directory) → AllGiven d → set_globals g build memory d ≡ ok d
  unfolding set_globals
  set_globals-AllGiven memory d h =
      rw (h.base_dir.1, h.mod_dir.1, h.conf_dir.1, h.log_dir.1, h.temp_dir.1)

  AllGiven-set_globals :
      (memory : Memory) (d : Directory) {d' : Directory}
      → set_globals g build memory d ≡ ok d'
      → AllGiven d'
  unfolding set_globals
  AllGiven-set_globals memory d {d'} h =
      let (a, b, c, e, f, same) = assert_all_inv _ _ _ _ _ _ h in
      subst AllGiven same
        (record { base_dir = a; mod_dir = b; conf_dir = c; log_dir = e; temp_dir = f })

  -- Once the directories are named, another call changes nothing, and needs no memory.
  set_globals_again :
      (memory later : Memory) (d : Directory) {d' : Directory}
      → set_globals g build memory d ≡ ok d'
      → set_globals g build later d' ≡ ok d'
  set_globals_again memory later d {d'} h =
      set_globals-AllGiven later d' (AllGiven-set_globals memory d h)

  abbrev log_text : List ℕ
  log_text = otherwise build.log_dir (b'l' ∷ b'o' ∷ b'g' ∷ [])

  log_dir-set_globals :
      (memory : Memory) {d' : Directory}
      → set_globals g build memory unset ≡ ok d'
      → d'.log_dir ≡ some (g.snprintf 1024 log_text)
  unfolding set_globals
  log_dir-set_globals memory {d'} h =
      let (a, b, c, e, f, same) = assert_all_inv _ _ _ _ _ _ h in
      ap (λ d. d.log_dir) (sym same) ∙ assign-none g memory.log_dir log_text e

  -- Where `set_globals` succeeds at the start of a process, with glib's functions as documented, every
  -- further call of it leaves the names as they are, and a file beside the log, whose directory has a
  -- name of fewer than 1024 bytes, has the path of that directory, a separator and its own name.
  pub set_globals-path_of :
      (memory later : Memory) (file : List ℕ) {d : Directory}
      → IsLawful g
      → length log_text < 1024
      → set_globals g build memory unset ≡ ok d
      → (set_globals g build later d ≡ ok d)
        × (path_of g d file ≡ log_text ++ (path_separator ++ file))
  unfolding path_of
  set_globals-path_of memory later file {d} lawful fits h = (
    set_globals_again memory later unset h,
    rw (log_dir-set_globals memory h, path_of, lawful.fits 1024 log_text fits, lawful.joins)
        (rw append-nil),
  )
