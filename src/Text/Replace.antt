-- ===== src/Text/Replace.antt =====
-- `str_replace_char`: where its loop ends, and what it makes of the text.
use soft_bts.Base.{
  ℕ, zero, suc, ◌≤◌, ◌≡◌, ◌≢◌, refl, sym, ap, false, ◌==◌, if◌then◌else◌, List, [], ◌∷◌, ◌++◌, map,
  length, arith, Bool-cases, inl, inr, ◌⊎◌, ◌<◌,
}
use soft_bts.Base.Outcome.{Outcome, ok, fault, looping, ◌>>=◌}
use soft_bts.Text.{
  Match, missing, terminator, inside, strchr, found_behind, overrun, str_replace_char,
}

abbrev pub replaced : ℕ → ℕ → List ℕ → List ℕ
replaced old new str = map (λ c. if c == old then new else c) str

-- What a search tells of the text.
abbrev Tells : ℕ → ℕ → List ℕ → Match → Type 0
Tells old new str missing = replaced old new str ≡ str
Tells old new str terminator = old ≡ 0
Tells old new str (inside before behind) =
    (replaced old new str ≡ before ++ (new ∷ replaced old new behind))
    × (length behind < length str)

Tells-found_behind :
    (old new c : ℕ) (str : List ℕ) (found : Match)
    → (c == old) ≡ false
    → Tells old new str found
    → Tells old new (c ∷ str) (found_behind c found)
unfolding found_behind
Tells-found_behind old new c str missing e t = rw (e, t)
Tells-found_behind old new c str terminator e t = t
Tells-found_behind old new c str (inside before behind) e (t, l) = (rw (e, t), omega arith)

strchr-Tells : (old new : ℕ) (str : List ℕ) → Tells old new str (strchr str old)
unfolding strchr
strchr-Tells old new [] = elim (Bool-cases (old == 0)) [
  | inl nul ↦ rw nul (ground arith)
  | inr other ↦ rw other refl
]
strchr-Tells old new (c ∷ str) = elim (Bool-cases (c == old)) [
  | inl hit ↦ rw hit (rw hit, omega arith)
  | inr miss ↦
      rw miss (Tells-found_behind old new c str (strchr str old) miss (strchr-Tells old new str))
]

Match-cases :
    (m : Match)
    → (m ≡ missing)
      ⊎ ((m ≡ terminator) ⊎ ((before : List ℕ) × (behind : List ℕ) × (m ≡ inside before behind)))
Match-cases missing = inl refl
Match-cases terminator = inr (inl refl)
Match-cases (inside before behind) = inr (inr (before, behind, refl))

bind_push :
    (r : Outcome (List ℕ)) (c : ℕ) (before : List ℕ)
    → (r >>= λ rest. ok ((c ∷ before) ++ rest))
      ≡ ((r >>= λ rest. ok (before ++ rest)) >>= λ text. ok (c ∷ text))
bind_push (ok text) c before = refl
bind_push fault c before = refl
bind_push looping c before = refl

overrun-push : (new : ℕ) → overrun new ≡ (overrun new >>= λ text. ok (new ∷ text))
unfolding overrun
overrun-push new = ground arith

-- The character that was put in is passed over by the next search.
str_replace_char-skip :
    (fuel old new : ℕ) (str : List ℕ)
    → (new == old) ≡ false
    → str_replace_char fuel (new ∷ str) old new
      ≡ (str_replace_char fuel str old new >>= λ text. ok (new ∷ text))
unfolding str_replace_char
str_replace_char-skip zero old new str miss = elim (Match-cases (strchr str old)) [
  | inl e ↦ rw (str_replace_char, miss, e, found_behind)
  | inr (inl e) ↦ rw (str_replace_char, miss, e, found_behind) (overrun-push new)
  | inr (inr (before, behind, e)) ↦ rw (str_replace_char, miss, e, found_behind)
]
str_replace_char-skip (suc fuel) old new str miss = elim (Match-cases (strchr str old)) [
  | inl e ↦ rw (str_replace_char, miss, e, found_behind)
  | inr (inl e) ↦ rw (str_replace_char, miss, e, found_behind) (overrun-push new)
  | inr (inr (before, behind, e)) ↦
      rw (str_replace_char, miss, e, found_behind)
        (bind_push (str_replace_char fuel (new ∷ behind) old new) new before)
]

-- With an old character other than NUL, and a new character other than the old one, the loop comes to
-- an end within as many rounds as the text has characters, and every occurrence of the old one has been
-- replaced, and nothing else.
pub str_replace_char-replaced :
    (fuel : ℕ) (str : List ℕ) (old new : ℕ)
    → old ≢ 0
    → new ≢ old
    → length str ≤ fuel
    → str_replace_char fuel str old new ≡ ok (replaced old new str)
unfolding str_replace_char strchr
str_replace_char-replaced zero [] old new nul ne le = ground arith
str_replace_char-replaced zero (c ∷ str) old new nul ne le = absurd (omega arith)
str_replace_char-replaced (suc fuel) str old new nul ne le = elim (Match-cases (strchr str old)) [
  | inl e ↦ rw (str_replace_char, e) (ap ok (sym (rw e at (strchr-Tells old new str))))
  | inr (inl e) ↦ absurd (nul (rw e at (strchr-Tells old new str)))
  | inr (inr (before, behind, e)) ↦
      let (t, l) = rw e at (strchr-Tells old new str) in
      let miss : (new == old) ≡ false = ground arith in
      rw
        (
          str_replace_char,
          e,
          str_replace_char-skip fuel old new behind miss,
          str_replace_char-replaced fuel behind old new nul ne (omega arith),
        )
        (ap ok (sym t))
]

-- A search for NUL comes past the end of the text: the loop runs out of the array, or has no end.
str_replace_char-nul : (fuel : ℕ) (new : ℕ) → new ≢ 0 → str_replace_char fuel [] 0 new ≡ fault
unfolding str_replace_char
str_replace_char-nul zero new ne = ground arith
str_replace_char-nul (suc fuel) new ne = ground arith
