-- ===== src/Tests/Attrs.antt =====
-- Lists of attributes that the walk goes over.
use soft_bts.Base.{ℕ, ◌+◌, ◌≡◌, refl, [], ◌∷◌, arith}
use soft_bts.Base.Outcome.{looping}
use soft_bts.Buffer.{Buffer, store_list}
use soft_bts.Nm.{Attr, att_code}
use soft_bts.Oml.Attributes.{shape, cgi, Cursor, attr_loop, bts_get_attr}
use soft_bts.Oml.Attributes.Walk.{plain, sized, Holds, Walked, bts_get_attr-Walked}
use soft_bts.Oml.Attributes.Decided.{bts_get_attr_decided}
use soft_bts.Oml.Attributes.Cgi.{attr_loop-cgi_odd}
use soft_bts.Tests.{zeros}

-- A BSIC, and a connection failure criterion of two bytes.
abbrev two_attributes : Buffer
two_attributes =
    store_list 12 (att_code Attr.bsic ∷ 63 ∷ att_code Attr.conn_fail_crit ∷ 0 ∷ 2 ∷ 1 ∷ 16 ∷ [])
      (store_list 6 (12 ∷ []) zeros)

lies : Holds two_attributes 12 (plain 2 ∷ sized 2 ∷ [])
unfolding shape
lies = (refl, ((refl, refl, omega arith), tt))

bts_get_attr-Walked_example : Walked 19 (bts_get_attr 2 two_attributes)
bts_get_attr-Walked_example =
    bts_get_attr-Walked two_attributes (plain 2 ∷ sized 2 ∷ []) 2 lies refl (omega arith)
      (omega arith)

shape_cgi : shape 0x99 ≡ cgi
unfolding shape
shape_cgi = refl

abbrev at_cgi : ℕ → Cursor
at_cgi n = record { length = n; pos = 12; atribute = 0x99 }

attr_loop-cgi_odd_example : attr_loop 1000 zeros (at_cgi 11) ≡ looping
attr_loop-cgi_odd_example = attr_loop-cgi_odd zeros 1000 (at_cgi 11) shape_cgi refl

-- The walk over a zero message, which has no known attribute, goes round for ever.
bts_get_attr_decided_example : bts_get_attr (5 + 371) zeros ≡ bts_get_attr 371 zeros
bts_get_attr_decided_example = bts_get_attr_decided zeros 5
