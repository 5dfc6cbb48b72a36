-- ===== src/Oml/Attributes/Walk.antt =====
-- When the walk of `bts_get_attr` comes to its end, and when it never does.
use soft_bts.Base.{
  ℕ, zero, suc, ◌+◌, ◌-◌, ◌%◌, ◌≤◌, ◌<◌, ◌≡◌, ◌≢◌, refl, sym, ◌∙◌, ap, ◌==◌, Bool-cases, inl, inr,
  arith, lt→ltb, ==_iff, List, [], ◌∷◌, length,
}
use soft_bts.Base.Outcome.{Outcome, ok, looping, ◌>>=◌}
use soft_bts.Buffer.{Buffer}
use soft_bts.Oml.Attributes.{
  fixed, tlv, unknown, shape, Cursor, sub8, attr_step, attr_loop, bts_get_attr,
}

-- An attribute as TS 12.21 has it: of a fixed size, or with a length of its own.
pub data Item : Type 0 where
  plain : ℕ → Item
  sized : ℕ → Item

abbrev pub item_size : Item → ℕ
item_size (plain n) = n
item_size (sized n) = 3 + n

abbrev pub total : List Item → ℕ
total [] = 0
total (i ∷ is) = item_size i + total is

-- The buffer holds an attribute of a code that has a size or a length field for the `switch`, as all
-- that it knows have but one.
abbrev pub Lies : Buffer → ℕ → Item → Type 0
Lies b p (plain n) = shape (b p) ≡ fixed n
Lies b p (sized n) = (shape (b p) ≡ tlv) × (b (p + 2) ≡ n) × (n < 256)

-- The buffer holds a list of attributes from an offset on.
abbrev pub Holds : Buffer → ℕ → List Item → Type 0
Holds b p [] = Unit {0}
Holds b p (i ∷ is) = Lies b p i × Holds b (p + item_size i) is

pub shape_pos : (a n : ℕ) → shape a ≡ fixed n → (0 < n) × (n ≤ 8)
unfolding shape
shape_pos a n h = ground arith

item_size_pos : (b : Buffer) (p : ℕ) (i : Item) → Lies b p i → 0 < item_size i
item_size_pos b p (plain n) h = (shape_pos (b p) n h).0
item_size_pos b p (sized n) h = omega arith

sub8_of_le : (a n : ℕ) → a < 256 → n ≤ a → sub8 a n ≡ a - n
sub8_of_le a n lt le = omega arith

-- One round of the loop steps over one attribute.
step_item :
    (b : Buffer) (i : Item) (len p : ℕ)
    → Lies b p i
    → item_size i ≤ len
    → len < 256
    → p + item_size i < 255
    → attr_step b (record { length = len; pos = p; atribute = b p })
      ≡ ok (record {
        length = len - item_size i;
        pos = p + item_size i;
        atribute = b (p + item_size i);
      })
unfolding attr_step
step_item b (plain n) len p h le lt fits =
    rw (h, attr_step, lt→ltb (p + n) 255 fits, sub8_of_le len n lt le)
step_item b (sized n) len p h le lt fits = rw (
  h.0,
  attr_step,
  lt→ltb (p + 2) 255 (omega arith),
  h.1,
  small,
  lt→ltb (p + (3 + n)) 255 fits,
  sub8_of_le len (3 + n) lt le,
)
  where
    small : n % 256 ≡ n
    small = omega (arith, h.2)

pub attr_loop_done : (fuel : ℕ) (b : Buffer) (c : Cursor) → c.length ≡ 0 → attr_loop fuel b c ≡ ok c
unfolding attr_loop
attr_loop_done zero b c e = ground arith
attr_loop_done (suc fuel) b c e = ground arith

pub attr_loop_more :
    (fuel : ℕ) (b : Buffer) (c : Cursor)
    → c.length ≢ 0
    → attr_loop (suc fuel) b c ≡ (attr_step b c >>= attr_loop fuel b)
unfolding attr_loop
attr_loop_more fuel b c ne = elim (Bool-cases (c.length == 0)) [
  | inl hit ↦ absurd (ne ((==_iff c.length 0).0 hit))
  | inr miss ↦ rw (miss, attr_loop)
]

-- What the loop ends with, if it does: nothing is left, and the pointer has come to `end`.
abbrev pub Walked : ℕ → Outcome Cursor → Type 0
Walked end r = (a : ℕ) × (r ≡ ok (record { length = 0; pos = end; atribute = a }))

-- One attribute more.
Walked-cons :
    (b : Buffer) (i : Item) (fuel len p : ℕ)
    → Lies b p i
    → item_size i ≤ len
    → len < 256
    → p + len < 255
    → Walked (p + item_size i + (len - item_size i)) (
        attr_loop fuel b (record {
          length = len - item_size i;
          pos = p + item_size i;
          atribute = b (p + item_size i);
        }))
    → Walked (p + len) (attr_loop (suc fuel) b (record { length = len; pos = p; atribute = b p }))
Walked-cons b i fuel len p h le lt fits rest =
    rw
      (
        attr_loop_more fuel b (record { length = len; pos = p; atribute = b p })
            (omega (arith, item_size_pos b p i h)),
        step_item b i len p h le lt (omega arith),
      )
      (rest.0, rest.1 ∙ ap at_end (omega arith))
  where
    at_end : ℕ → Outcome Cursor
    at_end e = ok (record { length = 0; pos = e; atribute = rest.0 })

attr_loop-Walked :
    (b : Buffer) (is : List Item) (fuel len p : ℕ)
    → Holds b p is
    → total is ≡ len
    → len < 256
    → p + len < 255
    → length is ≤ fuel
    → Walked (p + len) (attr_loop fuel b (record { length = len; pos = p; atribute = b p }))
attr_loop-Walked b [] fuel len p h t lt fits f =
    (b p, attr_loop_done fuel b _ (sym t) ∙ ground arith)
attr_loop-Walked b (i ∷ is) zero len p h t lt fits f = absurd (omega arith)
attr_loop-Walked b (i ∷ is) (suc fuel) len p h t lt fits f =
    Walked-cons b i fuel len p h.0 (omega arith) lt fits (
      attr_loop-Walked b is fuel (len - item_size i) (p + item_size i) h.1 (omega arith)
        (omega arith) (omega arith) (omega arith))

pub attr_loop-unknown :
    (b : Buffer) (fuel : ℕ) (c : Cursor)
    → shape c.atribute ≡ unknown
    → c.length ≢ 0
    → attr_loop fuel b c ≡ looping
unfolding attr_loop attr_step
attr_loop-unknown b zero c h ne = ground (arith, ==_iff c.length 0)
attr_loop-unknown b (suc fuel) c h ne =
    attr_loop_more fuel b c ne ∙ rw (h, attr_step) (attr_loop-unknown b fuel c h ne)

-- A message whose length field counts its list of attributes, of any that the `switch` knows but the
-- cell's global identity (NM_ATT_SOFTBTS_CGI, whose case steps over it and no further), is walked to
-- its end, in as many rounds as there are attributes, if a byte of the buffer is left behind the last
-- one.
pub bts_get_attr-Walked :
    (b : Buffer) (is : List Item) (fuel : ℕ)
    → Holds b 12 is
    → b 6 ≡ 5 + total is
    → total is < 243
    → length is ≤ fuel
    → Walked (12 + total is) (bts_get_attr fuel b)
unfolding bts_get_attr
bts_get_attr-Walked b is fuel h e lt f =
    rw (left) (attr_loop-Walked b is fuel (total is) 12 h refl (omega arith) (omega arith) f)
  where
    left : sub8 (b 6) 5 ≡ total is
    left = omega arith

-- An attribute of a code that the `switch` does not know: the loop goes round for ever.
pub bts_get_attr-unknown :
    (b : Buffer) (fuel : ℕ)
    → shape (b 12) ≡ unknown
    → b 6 < 256
    → b 6 ≢ 5
    → bts_get_attr fuel b ≡ looping
unfolding bts_get_attr
bts_get_attr-unknown b fuel h lt ne =
    attr_loop-unknown b fuel (record { length = sub8 (b 6) 5; pos = 12; atribute = b 12 }) h
      (omega arith)
