-- ===== src/Daemon/Decimal.antt =====
-- `sprintf(str, "%d", pid)` and `fscanf(fp, "%d", &pid)`, as src/softbts.c uses them.
use soft_bts.Base.{
  ℕ, zero, suc, ◌+◌, ◌*◌, ◌-◌, ◌/◌, ◌%◌, ◌^◌, ◌<◌, ◌≤◌, ◌≡◌, refl, ap, ◌∙◌, Bool, ◌==◌, ltb, leb,
  ◌&&◌, ◌||◌, if◌then◌else◌, List, [], ◌∷◌, ◌++◌, All, arith, lt→ltb,
}
use soft_bts.Base.Outcome.{Outcome, ok, fault}

-- The digits of a number below 10 ^ rounds.
digits : ℕ → ℕ → List ℕ
digits zero n = []
digits (suc rounds) n =
    let front = digits rounds (n / 10) in (if ltb n 10 then [] else front) ++ ((48 + n % 10) ∷ [])

-- A process id is positive and below 2 ^ 31, which ten digits hold.
unfoldable pub decimal : ℕ → List ℕ
unfolding digits
decimal pid = digits 10 pid

abbrev pub is_digit : ℕ → Bool
is_digit c = leb 48 c && leb c 57

-- The number that the leading digits spell, behind those that were read.
abbrev pub leading : ℕ → List ℕ → ℕ
leading n [] = n
leading n (c ∷ cs) = let rest = leading (10 * n + (c - 48)) cs in if is_digit c then rest else n

abbrev pub is_space : ℕ → Bool
is_space c = (c == 32) || (leb 9 c && leb c 13)

-- After white space and a sign. The caller asks whether the number is positive; 0 stands for one
-- that is not, and for none at all, where the variable keeps its 0.
abbrev pub scan_number : List ℕ → ℕ
scan_number [] = 0
scan_number (c ∷ cs) =
    let rest = scan_number cs in
    if is_space c then rest else if c == b'+' then leading 0 cs else leading 0 (c ∷ cs)

-- What C says nothing about is a number that an `int` does not hold.
unfoldable pub scan_pid : List ℕ → Outcome ℕ
scan_pid text = if ltb (scan_number text) (2 ^ 31) then ok (scan_number text) else fault

-- Texts of digits.
abbrev pub IsDigits : List ℕ → Type 0
IsDigits = All (λ c. (48 ≤ c) × (c ≤ 57))

abbrev pub value : ℕ → List ℕ → ℕ
value n [] = n
value n (c ∷ cs) = value (10 * n + (c - 48)) cs

pub value-append : (n : ℕ) (xs ys : List ℕ) → value n (xs ++ ys) ≡ value (value n xs) ys
value-append n [] ys = refl
value-append n (x ∷ xs) ys = value-append (10 * n + (x - 48)) xs ys

pub IsDigits-append : (xs ys : List ℕ) → IsDigits xs → IsDigits ys → IsDigits (xs ++ ys)
IsDigits-append [] ys hx hy = hy
IsDigits-append (x ∷ xs) ys hx hy = (hx.0, IsDigits-append xs ys hx.1 hy)

leading-value : (n : ℕ) (cs : List ℕ) → IsDigits cs → leading n cs ≡ value n cs
leading-value n [] h = refl
leading-value n (c ∷ cs) h = ground (arith, leading-value (10 * n + (c - 48)) cs h.1)

pub scan_number-value : (cs : List ℕ) → IsDigits cs → scan_number cs ≡ value 0 cs
scan_number-value [] h = refl
scan_number-value (c ∷ cs) h = ground (arith, leading-value 0 (c ∷ cs) h)

digits-IsDigits : (rounds n : ℕ) → IsDigits (digits rounds n)
unfolding digits
digits-IsDigits zero n = tt
digits-IsDigits (suc rounds) n =
    IsDigits-append (if ltb n 10 then [] else digits rounds (n / 10)) ((48 + n % 10) ∷ [])
      (ground (arith, digits-IsDigits rounds (n / 10))) (omega arith, tt)

value-digits : (rounds n : ℕ) → n < 10 ^ rounds → value 0 (digits rounds n) ≡ n
unfolding digits
value-digits zero n h = omega arith
value-digits (suc rounds) n h =
    let below : n / 10 < 10 ^ rounds = omega arith in
    let ih : value 0 (digits rounds (n / 10)) ≡ n / 10 = value-digits rounds (n / 10) below in
    let front : value 0 (if ltb n 10 then [] else digits rounds (n / 10)) ≡ n / 10 = ground arith in
    value-append 0 (if ltb n 10 then [] else digits rounds (n / 10)) ((48 + n % 10) ∷ [])
    ∙ omega (arith, front)

pub decimal-IsDigits : (pid : ℕ) → IsDigits (decimal pid)
unfolding decimal
decimal-IsDigits pid = digits-IsDigits 10 pid

pub value-decimal : (pid : ℕ) → pid < 2 ^ 31 → value 0 (decimal pid) ≡ pid
unfolding decimal
value-decimal pid h = value-digits 10 pid (omega arith)

-- More digits behind make a number larger.
pub value-le : (n : ℕ) (cs : List ℕ) → n ≤ value n cs
value-le n [] = omega arith
value-le n (c ∷ cs) = omega (arith, value-le (10 * n + (c - 48)) cs)

pub scan_pid-value :
    (cs : List ℕ) → IsDigits cs → value 0 cs < 2 ^ 31 → scan_pid cs ≡ ok (value 0 cs)
unfolding scan_pid
scan_pid-value cs d h = rw (scan_number-value cs d, lt→ltb (value 0 cs) (2 ^ 31) h)

pub scan_pid-decimal : (pid : ℕ) → pid < 2 ^ 31 → scan_pid (decimal pid) ≡ ok pid
scan_pid-decimal pid h =
    scan_pid-value (decimal pid) (decimal-IsDigits pid) (omega (arith, value-decimal pid h))
    ∙ ap ok (value-decimal pid h)
