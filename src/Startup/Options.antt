-- ===== src/Startup/Options.antt =====
-- `handle_options` of src/softbts.c on each sequence of options.
use mathlib.Core.List.{append-nil}
use soft_bts.Base.{
  ap, sym, ℕ, ◌<◌, ◌≤◌, ◌≡◌, refl, ◌∙◌, true, false, List, [], ◌∷◌, ◌++◌, length, All, arith,
  lt→ltb,
}
use soft_bts.Base.Outcome.{ok, fault}
use soft_bts.Startup.{
  Opt, stop, help, version, verbose, others, config, address, quits, read, read_options,
  handle_options,
}

-- An option that the loop goes on after: an address only where it fits.
abbrev pub IsHarmless : Opt → Type 0
IsHarmless verbose = Unit {0}
IsHarmless others = Unit {0}
IsHarmless (address text) = length text < 40
IsHarmless _ = ⊥

abbrev pub last_address : List Opt → List ℕ → List ℕ
last_address [] bsc = bsc
last_address (address text ∷ opts) bsc = last_address opts text
last_address (o ∷ opts) bsc = last_address opts bsc

read_options-append :
    (pre post : List Opt) (bsc : List ℕ)
    → All IsHarmless pre
    → read_options (pre ++ post) bsc ≡ read_options post (last_address pre bsc)
unfolding read_options
read_options-append [] post bsc h = refl
read_options-append (verbose ∷ pre) post bsc h = read_options-append pre post bsc h.1
read_options-append (others ∷ pre) post bsc h = read_options-append pre post bsc h.1
read_options-append (address text ∷ pre) post bsc h =
    rw (lt→ltb (length text) 40 h.0) (read_options-append pre post text h.1)
read_options-append (stop ∷ pre) post bsc h = absurd h.0
read_options-append (help ∷ pre) post bsc h = absurd h.0
read_options-append (version ∷ pre) post bsc h = absurd h.0
read_options-append (config text ∷ pre) post bsc h = absurd h.0

read_options-nil :
    (pre : List Opt) (bsc : List ℕ)
    → All IsHarmless pre
    → read_options pre bsc ≡ ok (read (last_address pre bsc))
unfolding read_options
read_options-nil pre bsc h =
    ap (λ opts. read_options opts bsc) (sym (append-nil pre)) ∙ read_options-append pre [] bsc h

pub handle_options-goes_on :
    (opts : List Opt)
    → All IsHarmless opts
    → handle_options false opts ≡ ok (read (last_address opts []))
unfolding handle_options
handle_options-goes_on opts h = read_options-nil opts [] h

-- Behind options that are gone on after (verbose, those without a case, an address of less than 40
-- bytes), the first other one decides: the option to stop ends the recorded process and exits,
-- help and version exit, a configuration file and an address of 40 bytes or more are written where
-- they must not. Without one, `main` goes on with the last address, also where none was given.
pub handle_options-decides :
    (pre post : List Opt) (text : List ℕ)
    → All IsHarmless pre
    → 40 ≤ length text
    → (handle_options false pre ≡ ok (read (last_address pre [])))
      × (handle_options false (pre ++ stop ∷ post) ≡ ok (quits true))
      × (handle_options false (pre ++ help ∷ post) ≡ ok (quits false))
      × (handle_options false (pre ++ version ∷ post) ≡ ok (quits false))
      × (handle_options false (pre ++ config text ∷ post) ≡ fault)
      × (handle_options false (pre ++ address text ∷ post) ≡ fault)
unfolding handle_options read_options
handle_options-decides pre post text h long = (
  read_options-nil pre [] h,
  read_options-append pre (stop ∷ post) [] h,
  read_options-append pre (help ∷ post) [] h,
  read_options-append pre (version ∷ post) [] h,
  read_options-append pre (config text ∷ post) [] h,
  read_options-append pre (address text ∷ post) [] h ∙ ground arith,
)
