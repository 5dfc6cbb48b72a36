-- ===== src/Names/Lookup.antt =====
-- What `get_name` of src/L3_utils.c finds, and for which values a table has no name.
use Prim.Native.String.{String}
use mathlib.Core.List.{append-nil}
use soft_bts.Base.{
  ℕ, ◌<◌, ◌≡◌, ◌≢◌, ◌↔◌, refl, sym, ◌∙◌, ap, Bool, true, false, Option, none, some, List, [], ◌∷◌,
  ◌++◌, ◌==◌, arith, ==_iff, all_below, all_below_sound, not,
}
use soft_bts.Base.Outcome.{Outcome, ok, fault, looping}
use soft_bts.Names.{get_name}
use soft_bts.Names.Format.{Table, entry}
use soft_bts.Names.Info.{nch, bs_pa_mfrms}

-- A table with its end, by the entries before it.
abbrev pub named : List (ℕ × String) → Table
named [] = entry 0 none ∷ []
named ((c, msg) ∷ rest) = entry c (some msg) ∷ named rest

abbrev pub Lacks : List (ℕ × String) → ℕ → Type 0
Lacks [] code = Unit {0}
Lacks ((c, msg) ∷ rest) code = (c ≢ code) × Lacks rest code

test_ne : (a b : ℕ) → a ≢ b → (a == b) ≡ false
test_ne a b h = ground arith

get_name-append :
    (pre post : List (ℕ × String)) (code : ℕ)
    → Lacks pre code
    → get_name (named (pre ++ post)) code ≡ get_name (named post) code
unfolding get_name
get_name-append [] post code h = refl
get_name-append ((c, msg) ∷ pre) post code h =
    rw (test_ne c code h.0) (get_name-append pre post code h.1)

-- In a table that ends in NULL the search stays in the table. It returns the name of the first
-- entry with the code, and NULL where no entry has it.
pub get_name-first :
    (pre post : List (ℕ × String)) (code : ℕ) (msg : String)
    → Lacks pre code
    → (get_name (named (pre ++ (code, msg) ∷ post)) code ≡ ok (some msg))
      × (get_name (named pre) code ≡ ok none)
unfolding get_name
get_name-first pre post code msg h = (
  get_name-append pre ((code, msg) ∷ post) code h ∙ rw ((==_iff code code).1 refl),
  ap (λ t. get_name (named t) code) (sym (append-nil pre)) ∙ get_name-append pre [] code h,
)

abbrev is_null : Outcome (Option String) → Bool
is_null (ok none) = true
is_null _ = false

null_iff : (r : Outcome (Option String)) (b : Bool) → is_null r ≡ b → (r ≡ ok none) ↔ (b ≡ true)
null_iff (ok none) b h = (λ e. sym h, λ e. refl)
null_iff (ok (some m)) b h = (λ e. cc, λ e. cc)
null_iff fault b h = (λ e. cc, λ e. cc)
null_iff looping b h = (λ e. cc, λ e. cc)

nch_table : all_below 32 (λ n. not (is_null (get_name nch n))) ≡ true
unfolding all_below get_name
nch_table = refl

-- Every position of the notification channel that five bits hold has a name.
pub nch-named : (n : ℕ) → n < 32 → get_name nch n ≢ ok none
nch-named n h e =
    let t = all_below_sound 32 (λ n. not (is_null (get_name nch n))) n nch_table h in cc

abbrev agree : Bool → Bool → Bool
agree true b = b
agree false b = not b

agree-eq : (a b : Bool) → agree a b ≡ true → a ≡ b
agree-eq true b h = sym h
agree-eq false true h = cc
agree-eq false false h = refl

mfrms_table : all_below 8 (λ n. agree (is_null (get_name bs_pa_mfrms n)) (n == 7)) ≡ true
unfolding all_below get_name
mfrms_table = refl

-- Of the values that three bits hold, 7 alone has no name in the table of paging multiframes.
pub bs_pa_mfrms-unnamed : (n : ℕ) → n < 8 → (get_name bs_pa_mfrms n ≡ ok none) ↔ (n ≡ 7)
bs_pa_mfrms-unnamed n h =
    let t =
      all_below_sound 8 (λ n. agree (is_null (get_name bs_pa_mfrms n)) (n == 7)) n mfrms_table h in
    let e = agree-eq _ _ t in
    let i = null_iff (get_name bs_pa_mfrms n) (n == 7) e in
    (λ a. (==_iff n 7).0 (i.0 a), λ a. i.1 ((==_iff n 7).1 a))
