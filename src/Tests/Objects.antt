-- ===== src/Tests/Objects.antt =====
-- Sessions on the O&M link.
use soft_bts.Base.{ℕ, ◌≡◌, refl, List, [], ◌∷◌, All, inl, inr, arith}
use soft_bts.Base.Outcome.{ok, looping}
use soft_bts.Buffer.{Buffer, store_list}
use soft_bts.Nm.{ObjClass, obj_code, MsgType, msg_code}
use soft_bts.Bts.{Bts, sent}
use soft_bts.Bts.Log.{transmit}
use soft_bts.Message.{manager, channel, start, configure_station}
use soft_bts.Site
use soft_bts.Oml.{oml_msg, init_rsl_link, id_ack, null_msg}
use soft_bts.Oml.Attributes.{bts_get_attr, attr_loop, attr_step, unknown, shape}
use soft_bts.Oml.Refines.{view, observe, Holds, oml_msg_refines}
use soft_bts.Oml.Session.{Arrival, serve, session, serve_refines}
use soft_bts.Oml.Connect.{radio_reports, oml_msg-connects}
use soft_bts.Oml.Ignored.{oml_msg-ignored}
use soft_bts.Oml.Faults.{oml_msg-looping}
use soft_bts.Tests.{good_net, zeros, fresh, with_bytes, start_site, start_last, set_attributes}

abbrev content : List ℕ → Buffer
content body = store_list 0 (0 ∷ 9 ∷ 0xff ∷ body) zeros

walked :
    bts_get_attr 1 (content set_attributes) ≡ ok (record { length = 0; pos = 14; atribute = 0 })
unfolding bts_get_attr attr_loop attr_step shape
walked = refl

start_site-Holds : Holds 1 (start manager) (content start_site)
start_site-Holds = record { formatted = refl; typed = refl; classed = refl; slot = tt; wants = tt }

attributes-Holds : Holds 1 configure_station (content set_attributes)
attributes-Holds = record {
  formatted = refl;
  typed = refl;
  classed = refl;
  slot = tt;
  wants = (record { length = 0; pos = 14; atribute = 0 }, walked);
}

start_last-Holds : Holds 1 (start (channel 7)) (content start_last)
start_last-Holds = record {
  formatted = refl;
  typed = refl;
  classed = refl;
  slot = refl;
  wants = omega arith;
}

abbrev arrivals : List Arrival
arrivals =
    record { request = start manager; content = content start_site }
    ∷ record { request = configure_station; content = content set_attributes }
    ∷ record { request = start (channel 7); content = content start_last }
    ∷ []

arrivals-Holds : All (λ a. Holds 1 a.request a.content) arrivals
arrivals-Holds = (start_site-Holds, (attributes-Holds, (start_last-Holds, tt)))

oml_msg_refines_example :
    observe (oml_msg good_net 1 4 (record fresh { buf = content start_last }))
    ≡ ok (
      Site.next (start (channel 7)) (view fresh),
      transmit 4 (Site.answer (start (channel 7)) (Site.next (start (channel 7)) (view fresh))) [],
    )
oml_msg_refines_example =
    oml_msg_refines good_net 1 4 (start (channel 7)) (record fresh { buf = content start_last })
      start_last-Holds

serve_refines_example :
    observe (serve good_net 1 4 arrivals fresh) ≡ ok (session 4 arrivals (view fresh) [])
serve_refines_example = serve_refines good_net 1 4 arrivals fresh arrivals-Holds

abbrev connect_request : Bts
connect_request = with_bytes (0 ∷ 18 ∷ 0xff ∷ 0x10 ∷ 0x80 ∷ 0 ∷ 5 ∷ 12 ∷ [])

oml_msg-connects_example :
    observe (oml_msg good_net 1 4 connect_request)
    ≡ ok (
      view fresh,
      sent 9 null_msg
          ∷ sent 9 id_ack
          ∷ transmit 4 (radio_reports (view fresh)) (sent 4 init_rsl_link ∷ []),
    )
oml_msg-connects_example = oml_msg-connects good_net 1 4 connect_request refl refl

-- The attribute's code 0x01 is not among those of the walk.
abbrev odd_attribute : Bts
odd_attribute = with_bytes (
    0
    ∷ 11
    ∷ 0xff
    ∷ 0x80
    ∷ 0x80
    ∷ 0
    ∷ 7
    ∷ msg_code MsgType.set_bts_attr
    ∷ obj_code ObjClass.bts
    ∷ 0
    ∷ 0xff
    ∷ 0xff
    ∷ 0x01
    ∷ 0
    ∷ [])

shape_one : shape 0x01 ≡ unknown
unfolding shape
shape_one = refl

oml_msg-looping_example : oml_msg good_net 1000 4 odd_attribute ≡ looping
oml_msg-looping_example =
    oml_msg-looping good_net 1000 4 odd_attribute refl shape_one (omega arith)
      (λ e. absurd (omega arith))

-- A request to start an object of a class that no object has.
abbrev foreign : Bts
foreign =
    with_bytes
      (0 ∷ 9 ∷ 0xff ∷ 0x80 ∷ 0x80 ∷ 0 ∷ 5 ∷ msg_code MsgType.opstart ∷ 0x42 ∷ 0 ∷ 0 ∷ 0 ∷ [])

oml_msg-ignored_example : oml_msg good_net 1 4 foreign ≡ ok foreign
oml_msg-ignored_example =
    oml_msg-ignored good_net 1 4 foreign (λ e. absurd (omega arith))
      (inr (
        inr (inr (inl refl)),
        (
          λ e. absurd (omega arith),
          λ e. absurd (omega arith),
          λ e. absurd (omega arith),
          λ e. absurd (omega arith),
          λ e. absurd (omega arith),
        ),
      ))
