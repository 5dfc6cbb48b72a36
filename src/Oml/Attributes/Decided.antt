-- ===== src/Oml/Attributes/Decided.antt =====
-- `bts_get_attr` on any message: after how many rounds its loop has come to what it ever comes to.
use soft_bts.Base.{
  ℕ, zero, suc, ◌+◌, ◌-◌, ◌%◌, ◌≤◌, ◌<◌, ◌≡◌, ◌≢◌, refl, sym, ap, ◌∙◌, ◌==◌, ltb, Bool-cases, inl,
  inr, ◌⊎◌, arith, ==_iff, ltb→lt,
}
use soft_bts.Base.Outcome.{ok, fault, ◌>>=◌, >>=-eq-ok}
use mathlib.Core.Path.{subst}
use soft_bts.Buffer.{Buffer, buffer_length}
use soft_bts.Oml.Attributes.{
  Shape, fixed, tlv, cgi, unknown, shape, Cursor, sub8, advance, advance_tlv, attr_step, attr_loop,
  bts_get_attr,
}
use soft_bts.Oml.Attributes.Walk.{attr_loop_done, attr_loop_more, attr_loop-unknown, shape_pos}
use soft_bts.Oml.Attributes.Cgi.{attr_loop-cgi_odd, attr_loop-cgi_even}

-- One more round changes nothing where the loop has ended.
attr_loop-suc :
    (fuel : ℕ) (b : Buffer) (c : Cursor) {c' : Cursor}
    → attr_loop fuel b c ≡ ok c'
    → attr_loop (suc fuel) b c ≡ ok c'
unfolding attr_loop
attr_loop-suc zero b c h = elim (Bool-cases (c.length == 0)) [
  | inl e ↦ attr_loop_done 1 b c ((==_iff c.length 0).0 e) ∙ rw e at h
  | inr e ↦ cc (rw e at h)
]
attr_loop-suc (suc fuel) b c {c'} h = elim (Bool-cases (c.length == 0)) [
  | inl e ↦
      let none_left = (==_iff c.length 0).0 e in
      attr_loop_done (suc (suc fuel)) b c none_left
      ∙ sym (attr_loop_done (suc fuel) b c none_left)
      ∙ h
  | inr e ↦
      let left : c.length ≢ 0 = ground arith in
      let (c1, step, rest) = >>=-eq-ok (attr_step b c) _ (sym (attr_loop_more fuel b c left) ∙ h) in
      attr_loop_more (suc fuel) b c left
      ∙ ap (λ o. o >>= attr_loop (suc fuel) b) step
      ∙ attr_loop-suc fuel b c1 rest
]

attr_loop-add :
    (fuel more : ℕ) (b : Buffer) (c : Cursor) {c' : Cursor}
    → attr_loop fuel b c ≡ ok c'
    → attr_loop (more + fuel) b c ≡ ok c'
attr_loop-add fuel zero b c {c'} h = subst (λ n. attr_loop n b c ≡ ok c') (omega arith) h
attr_loop-add fuel (suc more) b c {c'} h =
    subst (λ n. attr_loop n b c ≡ ok c') (omega arith)
      (attr_loop-suc (more + fuel) b c (attr_loop-add fuel more b c h))

-- From an attribute on whose case does not load the next one, 128 rounds decide.
cgi_decided :
    (fuel : ℕ) (b : Buffer) (c : Cursor)
    → shape c.atribute ≡ cgi
    → c.length < 256
    → 128 ≤ fuel
    → attr_loop (suc fuel) b c ≡ attr_loop fuel b c
cgi_decided fuel b c h lt enough = elim (Bool-cases (c.length % 2 == 0)) [
  | inl even ↦
      let (c', ends, zero_left) = attr_loop-cgi_even b c h lt ((==_iff (c.length % 2) 0).0 even) in
      let now : attr_loop fuel b c ≡ ok c' =
        subst (λ n. attr_loop n b c ≡ ok c') (omega (arith, enough))
          (attr_loop-add 128 (fuel - 128) b c ends) in
      attr_loop-suc fuel b c now ∙ sym now
  | inr odd ↦
      let e : c.length % 2 ≡ 1 = ground arith in
      attr_loop-cgi_odd b (suc fuel) c h e ∙ sym (attr_loop-cgi_odd b fuel c h e)
]

-- A step over an attribute is a fault or goes on.
advance_forward :
    (b : Buffer) (size : ℕ) (c : Cursor)
    → 0 < size
    → (advance b size c ≡ fault)
      ⊎ ((c' : Cursor) × (advance b size c ≡ ok c')
          × (c.pos < c'.pos)
          × (c'.pos < 255)
          × (c'.length < 256))
unfolding advance
advance_forward b size c h = elim (Bool-cases (ltb (c.pos + size) buffer_length)) [
  | inl e ↦ inr (
    record { length = sub8 c.length size; pos = c.pos + size; atribute = b (c.pos + size) },
    rw e,
    omega arith,
    ltb→lt (c.pos + size) 255 e,
    omega arith,
  )
  | inr e ↦ inl (rw e)
]

-- The length of an attribute stands in the two bytes behind its code.
advance_tlv_forward :
    (b : Buffer) (c : Cursor)
    → (advance_tlv b c ≡ fault)
      ⊎ ((c' : Cursor) × (advance_tlv b c ≡ ok c')
          × (c.pos < c'.pos)
          × (c'.pos < 255)
          × (c'.length < 256))
unfolding advance_tlv
advance_tlv_forward b c = elim (Bool-cases (ltb (c.pos + 2) buffer_length)) [
  | inl e ↦ rw e (advance_forward b (3 + b (c.pos + 2) % 256) c (omega arith))
  | inr e ↦ inl (rw e)
]

-- The body of the loop: it ends the walk, goes on behind the attribute, or goes on from one of the
-- two kinds of attributes whose cases do not.
data Round (b : Buffer) (c : Cursor) : Type 0 where
  faults : attr_step b c ≡ fault → Round b c
  forward :
      (c' : Cursor)
      → attr_step b c ≡ ok c'
      → c.pos < c'.pos
      → c'.pos < 255
      → c'.length < 256
      → Round b c
  skips : shape c.atribute ≡ cgi → Round b c
  stays : shape c.atribute ≡ unknown → Round b c

forward-Round :
    (b : Buffer) (c : Cursor)
    → (attr_step b c ≡ fault)
      ⊎ ((c' : Cursor) × (attr_step b c ≡ ok c')
          × (c.pos < c'.pos)
          × (c'.pos < 255)
          × (c'.length < 256))
    → Round b c
forward-Round b c (inl e) = faults e
forward-Round b c (inr (c', e, further, fits, byte)) = forward c' e further fits byte

attr_step-Round : (b : Buffer) (c : Cursor) (k : Shape) → shape c.atribute ≡ k → Round b c
unfolding attr_step
attr_step-Round b c (fixed n) e =
    forward-Round b c (rw (e, attr_step) (advance_forward b n c (shape_pos c.atribute n e).0))
attr_step-Round b c tlv e = forward-Round b c (rw (e, attr_step) (advance_tlv_forward b c))
attr_step-Round b c cgi e = skips e
attr_step-Round b c unknown e = stays e

module _ (b : Buffer) where
  -- A position left in the buffer allows for a round, and 128 are needed behind the last one.
  decided :
      (fuel : ℕ) (c : Cursor)
      → c.length < 256
      → (255 - c.pos) + 128 ≤ fuel
      → attr_loop (suc fuel) b c ≡ attr_loop fuel b c
  decided zero c lt enough = absurd (omega arith)
  decided (suc fuel) c lt enough = elim (Bool-cases (c.length == 0)) [
    | inl e ↦
        let none_left = (==_iff c.length 0).0 e in
        attr_loop_done (suc (suc fuel)) b c none_left
        ∙ sym (attr_loop_done (suc fuel) b c none_left)
    | inr e ↦
        let left : c.length ≢ 0 = ground arith in
        elim (attr_step-Round b c (shape c.atribute) refl) [
          | faults f ↦
              attr_loop_more (suc fuel) b c left
              ∙ ap (λ o. o >>= attr_loop (suc fuel) b) f
              ∙ sym (attr_loop_more fuel b c left ∙ ap (λ o. o >>= attr_loop fuel b) f)
          | forward c' s further fits byte ↦
              attr_loop_more (suc fuel) b c left
              ∙ ap (λ o. o >>= attr_loop (suc fuel) b) s
              ∙ decided fuel c' byte (omega (arith, enough))
              ∙ sym (attr_loop_more fuel b c left ∙ ap (λ o. o >>= attr_loop fuel b) s)
          | skips k ↦ cgi_decided (suc fuel) b c k lt (omega (arith, enough))
          | stays k ↦
              attr_loop-unknown b (suc (suc fuel)) c k left
              ∙ sym (attr_loop-unknown b (suc fuel) c k left)
        ]
  ]

  -- On any message, 371 rounds decide: with more of them the walk gives the same, so that it has
  -- come to an end, has left the buffer, or never comes to an end.
  pub bts_get_attr_decided : (more : ℕ) → bts_get_attr (more + 371) b ≡ bts_get_attr 371 b
  unfolding bts_get_attr
  bts_get_attr_decided zero = refl
  bts_get_attr_decided (suc more) =
      ap (λ n. bts_get_attr n b) (omega arith)
      ∙ decided (more + 371) (record { length = sub8 (b 6) 5; pos = 12; atribute = b 12 })
          (omega arith) (omega arith)
      ∙ bts_get_attr_decided more
