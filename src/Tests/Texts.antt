-- ===== src/Tests/Texts.antt =====
-- Names and dumps.
use soft_bts.Base.{ℕ, ◌≡◌, none, some, List, [], ◌∷◌, arith}
use soft_bts.Base.Outcome.{ok}
use soft_bts.Names.{get_name}
use soft_bts.Names.Lookup.{named, get_name-first}
use soft_bts.Text.{str_replace_char}
use soft_bts.Text.Replace.{str_replace_char-replaced}

get_name-first_example :
    (get_name (named ((0, "ATT_NO") ∷ (1, "ATT_YES") ∷ [])) 1 ≡ ok (some "ATT_YES"))
    × (get_name (named ((0, "ATT_NO") ∷ [])) 1 ≡ ok none)
get_name-first_example =
    get_name-first ((0, "ATT_NO") ∷ []) [] 1 "ATT_YES" (λ e. absurd (omega arith), tt)

abbrev two : List ℕ
two = 0x2b ∷ 0xff ∷ []

-- "a\nb\n"
abbrev lines : List ℕ
lines = b'a' ∷ 10 ∷ b'b' ∷ 10 ∷ []

str_replace_char-replaced_example : str_replace_char 4 lines 10 32 ≡ ok (b'a' ∷ 32 ∷ b'b' ∷ 32 ∷ [])
str_replace_char-replaced_example =
    str_replace_char-replaced 4 lines 10 32 (λ e. absurd (omega arith)) (λ e. absurd (omega arith))
      (omega arith)
