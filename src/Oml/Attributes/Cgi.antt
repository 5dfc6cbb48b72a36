-- ===== src/Oml/Attributes/Cgi.antt =====
-- The case of NM_ATT_SOFTBTS_CGI in `bts_get_attr`: it steps over ten bytes and does not load the
-- next attribute's code, so the loop takes all that follows for further such attributes.
use soft_bts.Base.{
  ℕ, zero, suc, ◌%◌, ◌<◌, ◌≡◌, ◌≢◌, refl, ◌∙◌, Bool, true, ◌==◌, if◌then◌else◌, Bool-cases, inl,
  inr, arith, ==_iff, all_below, all_below_sound,
}
use soft_bts.Base.Outcome.{ok, looping}
use soft_bts.Buffer.{Buffer}
use soft_bts.Oml.Attributes.{cgi, shape, Cursor, sub8, skip_cgi, attr_step, attr_loop}
use soft_bts.Oml.Attributes.Walk.{attr_loop_done, attr_loop_more}

skip_step : (b : Buffer) (c : Cursor) → shape c.atribute ≡ cgi → attr_step b c ≡ ok (skip_cgi c)
unfolding attr_step
skip_step b c h = rw (h, attr_step)

skip_round :
    (b : Buffer) (fuel : ℕ) (c : Cursor)
    → shape c.atribute ≡ cgi
    → c.length ≢ 0
    → attr_loop (suc fuel) b c ≡ attr_loop fuel b (skip_cgi c)
skip_round b fuel c h ne = attr_loop_more fuel b c ne ∙ rw (skip_step b c h)

-- An odd number of bytes left, from such an attribute on: ten at a time never take it to 0, also
-- as the counter wraps, and the loop goes round for ever.
pub attr_loop-cgi_odd :
    (b : Buffer) (fuel : ℕ) (c : Cursor)
    → shape c.atribute ≡ cgi
    → c.length % 2 ≡ 1
    → attr_loop fuel b c ≡ looping
unfolding attr_loop skip_cgi
attr_loop-cgi_odd b zero c h odd = ground arith
attr_loop-cgi_odd b (suc fuel) c h odd =
    skip_round b fuel c h (omega arith) ∙ attr_loop-cgi_odd b fuel (skip_cgi c) h (omega arith)

-- How the counter falls, without the rest of the loop.
drains : ℕ → ℕ → Bool
drains zero len = len == 0
drains (suc fuel) len = let rest = drains fuel (sub8 len 10) in if len == 0 then true else rest

drains_even : all_below 256 (λ len. if len % 2 == 0 then drains 128 len else true) ≡ true
unfolding all_below drains
drains_even = refl

attr_loop-drains :
    (b : Buffer) (fuel : ℕ) (c : Cursor)
    → shape c.atribute ≡ cgi
    → drains fuel c.length ≡ true
    → (c' : Cursor) × (attr_loop fuel b c ≡ ok c') × (c'.length ≡ 0)
unfolding drains skip_cgi
attr_loop-drains b zero c h d =
    (c, attr_loop_done 0 b c ((==_iff c.length 0).0 d), (==_iff c.length 0).0 d)
attr_loop-drains b (suc fuel) c h d = elim (Bool-cases (c.length == 0)) [
  | inl e ↦ (c, attr_loop_done (suc fuel) b c ((==_iff c.length 0).0 e), (==_iff c.length 0).0 e)
  | inr e ↦
      let more = attr_loop-drains b fuel (skip_cgi c) h (rw e at d) in
      (more.0, skip_round b fuel c h (ground arith) ∙ more.1, more.2)
]

-- An even number: the counter comes to 0 within 128 rounds, and the loop ends.
pub attr_loop-cgi_even :
    (b : Buffer) (c : Cursor)
    → shape c.atribute ≡ cgi
    → c.length < 256
    → c.length % 2 ≡ 0
    → (c' : Cursor) × (attr_loop 128 b c ≡ ok c') × (c'.length ≡ 0)
attr_loop-cgi_even b c h lt even = attr_loop-drains b 128 c h (
    rw even at (
      all_below_sound 256 (λ len. if len % 2 == 0 then drains 128 len else true) c.length
        drains_even lt))
