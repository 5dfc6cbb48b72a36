-- ===== src/Tests/Logs.antt =====
-- The names of the files, and lines in the log.
use soft_bts.Base.{
  ℕ, zero, suc, ◌-◌, ◌≤◌, ◌≡◌, refl, sym, ap, true, none, some, List, [], ◌∷◌, ◌++◌, length, arith,
}
use mathlib.Core.List.{append-nil}
use soft_bts.Base.Outcome.{ok}
use soft_bts.Glib.{Glib, IsLawful, concat}
use soft_bts.Globals.{Directory, unset, Build, lock_file, set_globals, path_of}
use soft_bts.Globals.Lasting.{granted, set_globals-path_of}
use soft_bts.Daemon.{take}
use soft_bts.Text.{hexdump}
use soft_bts.Text.Hex.{unhex}
use soft_bts.Logger.{Log, Calls, debug}
use soft_bts.Logger.Entries.{Call, logs, debugs, write_all, entry, entries, write_all-entries}
use soft_bts.Logger.Dumps.{dump_line, debug-hexdump}

-- As glib has the two functions.
abbrev join : List ℕ → List (List ℕ) → List ℕ
join sep [] = []
join sep (t ∷ []) = t
join sep (t ∷ (u ∷ ts)) = t ++ (sep ++ join sep (u ∷ ts))

abbrev pub glib : Glib
glib = record { strjoin = join; snprintf = λ n t. take (n - 1) t }

join-concat : (ts : List (List ℕ)) → join [] ts ≡ concat ts
join-concat [] = refl
join-concat (t ∷ []) = sym (append-nil t)
join-concat (t ∷ (u ∷ ts)) = ap (λ x. t ++ x) (join-concat (u ∷ ts))

take-long : (n : ℕ) (t : List ℕ) → length t ≤ n → take n t ≡ t
take-long zero [] h = refl
take-long zero (c ∷ t) h = absurd (omega arith)
take-long (suc n) [] h = refl
take-long (suc n) (c ∷ t) h = ap (λ x. c ∷ x) (take-long n t (omega arith))

glib-IsLawful : IsLawful glib
glib-IsLawful = record { joins = join-concat; fits = λ n t h. take-long (n - 1) t (omega arith) }

abbrev pub plain : Build
plain = record { mod_dir = none; conf_dir = none; log_dir = none; temp_dir = none }

abbrev named : Directory
named = record {
  base_dir = some (b'.' ∷ []);
  mod_dir = some (b'.' ∷ b'/' ∷ b'm' ∷ b'o' ∷ b'd' ∷ []);
  conf_dir = some (b'.' ∷ b'/' ∷ b'c' ∷ b'o' ∷ b'n' ∷ b'f' ∷ []);
  log_dir = some (b'.' ∷ b'/' ∷ b'l' ∷ b'o' ∷ b'g' ∷ []);
  temp_dir = some (b'/' ∷ b't' ∷ b'm' ∷ b'p' ∷ b'/' ∷ []);
}

names : set_globals glib plain granted unset ≡ ok named
unfolding set_globals
names = refl

set_globals-path_of_example :
    (set_globals glib plain granted named ≡ ok named)
    × (path_of glib named lock_file
        ≡ (b'.' ∷ b'/' ∷ b'l' ∷ b'o' ∷ b'g' ∷ []) ++ ((b'/' ∷ []) ++ lock_file))
set_globals-path_of_example =
    set_globals-path_of glib plain granted granted lock_file glib-IsLawful (omega arith) names

abbrev at_noon : Calls
at_noon = record { opens = true; asctime = b'1' ∷ b'2' ∷ 10 ∷ []; console = true }

abbrev empty : Log
empty = record { file = []; stdout = [] }

abbrev some_calls : List Call
some_calls =
    logs at_noon 3 (b'a' ∷ []) (b'b' ∷ []) (b'7' ∷ []) (b'o' ∷ b'k' ∷ [])
    ∷ debugs at_noon 2 (b'x' ∷ [])
    ∷ []

write_all-entries_example :
    (log' : Log) × (write_all glib some_calls empty ≡ ok log')
    × (log'.file ≡ [] ++ entries some_calls)
write_all-entries_example =
    write_all-entries glib some_calls empty glib-IsLawful
      ((omega arith, omega arith), (omega arith, tt))

debug-hexdump_example :
    (dump : List ℕ) × (hexdump (0xfe ∷ 4 ∷ []) ≡ ok dump)
    × (unhex dump ≡ 0xfe ∷ 4 ∷ [])
    × ((log' : Log) × (debug at_noon 2 (dump_line (b'R' ∷ b'X' ∷ []) dump) empty ≡ ok log')
        × (log'.file ≡ [] ++ entry (debugs at_noon 2 (dump_line (b'R' ∷ b'X' ∷ []) dump))))
debug-hexdump_example =
    debug-hexdump at_noon 2 (b'R' ∷ b'X' ∷ []) (0xfe ∷ 4 ∷ []) empty
      (omega arith, (omega arith, tt)) (omega arith) (omega arith)
