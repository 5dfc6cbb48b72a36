-- ===== src/Globals.antt =====
-- `set_globals` of src/softbts.c: the names of the directories.
pub mod Lasting
use soft_bts.Base.{ℕ, Bool, true, false, Option, none, some, List, [], ◌∷◌, ◌++◌}
use soft_bts.Base.Outcome.{Outcome, ok, fault}
use soft_bts.Glib.{Glib}

-- `bts_directory_t`, where NULL is none. Each field holds a text.
pub record Directory : Type 0 where
  pub base_dir : Option (List ℕ)
  pub mod_dir : Option (List ℕ)
  pub conf_dir : Option (List ℕ)
  pub log_dir : Option (List ℕ)
  pub temp_dir : Option (List ℕ)

-- At the start of the program.
abbrev pub unset : Directory
unset = record { base_dir = none; mod_dir = none; conf_dir = none; log_dir = none; temp_dir = none }

-- The macros BTS_MOD_DIR, BTS_CONF_DIR, BTS_LOG_DIR and BTS_TEMP_DIR, as far as they are defined.
pub record Build : Type 0 where
  pub mod_dir : Option (List ℕ)
  pub conf_dir : Option (List ℕ)
  pub log_dir : Option (List ℕ)
  pub temp_dir : Option (List ℕ)

-- Whether each `malloc` succeeds.
pub record Memory : Type 0 where
  pub base_dir : Bool
  pub mod_dir : Bool
  pub conf_dir : Bool
  pub log_dir : Bool
  pub temp_dir : Bool

-- BUFSIZE
abbrev pub bufsize : ℕ
bufsize = 1024

-- BTS_PREFIX_DIR and BTS_PATH_SEPARATOR
abbrev pub prefix_dir : List ℕ
prefix_dir = b'.' ∷ []

abbrev pub path_separator : List ℕ
path_separator = b'/' ∷ []

-- LOCK_FILE and LOG_FILE
abbrev pub lock_file : List ℕ
lock_file = b'b' ∷ b't' ∷ b's' ∷ b'.' ∷ b'l' ∷ b'o' ∷ b'c' ∷ b'k' ∷ []

abbrev pub log_file : List ℕ
log_file = b'b' ∷ b't' ∷ b's' ∷ b'.' ∷ b'l' ∷ b'o' ∷ b'g' ∷ []

-- The text of a macro, or a name below the directory that the program runs in.
abbrev pub otherwise : Option (List ℕ) → List ℕ → List ℕ
otherwise (some text) name = text
otherwise none name = prefix_dir ++ (path_separator ++ name)

-- `if (!dir && (dir = malloc(BUFSIZE))) g_snprintf(dir, BUFSIZE, …)`
assign : Glib → Bool → List ℕ → Option (List ℕ) → Option (List ℕ)
assign g granted text (some dir) = some dir
assign g true text none = some (g.snprintf bufsize text)
assign g false text none = none

-- The five calls of `g_assert`, which ends the program.
assert_all :
    Directory
    → Option (List ℕ)
    → Option (List ℕ)
    → Option (List ℕ)
    → Option (List ℕ)
    → Option (List ℕ)
    → Outcome Directory
assert_all d (some a) (some b) (some c) (some e) (some f) = ok d
assert_all d _ _ _ _ _ = fault

unfoldable pub set_globals : Glib → Build → Memory → Directory → Outcome Directory
unfolding assign assert_all
set_globals g build memory d =
    let mod_name = b'm' ∷ b'o' ∷ b'd' ∷ [] in
    let conf_name = b'c' ∷ b'o' ∷ b'n' ∷ b'f' ∷ [] in
    let log_name = b'l' ∷ b'o' ∷ b'g' ∷ [] in
    let temp_name = b'/' ∷ b't' ∷ b'm' ∷ b'p' ∷ b'/' ∷ [] in
    let d' : Directory = record {
      base_dir = assign g memory.base_dir prefix_dir d.base_dir;
      mod_dir = assign g memory.mod_dir (otherwise build.mod_dir mod_name) d.mod_dir;
      conf_dir = assign g memory.conf_dir (otherwise build.conf_dir conf_name) d.conf_dir;
      log_dir = assign g memory.log_dir (otherwise build.log_dir log_name) d.log_dir;
      temp_dir =
          assign g memory.temp_dir (elim build.temp_dir [ none ↦ temp_name | some text ↦ text ])
            d.temp_dir;
    } in
    assert_all d' d'.base_dir d'.mod_dir d'.conf_dir d'.log_dir d'.temp_dir

-- The full path of a file in the directory of the log, as `kill_background`, `daemonize`, `logger`
-- and `debug` join it. A NULL ends the list of texts.
unfoldable pub path_of : Glib → Directory → List ℕ → List ℕ
path_of g d file = elim d.log_dir [
  | none ↦ g.strjoin [] []
  | some log_dir ↦ g.strjoin [] (log_dir ∷ path_separator ∷ file ∷ [])
]
