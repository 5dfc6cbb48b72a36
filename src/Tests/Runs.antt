-- ===== src/Tests/Runs.antt =====
-- A run of the loop: a transceiver connects, and sends a ping.
use soft_bts.Base.{◌≡◌, refl, true, some, none, List, [], ◌∷◌, arith, inr}
use soft_bts.Base.Outcome.{ok}
use soft_bts.Bts.{sent, killed}
use soft_bts.Link.{Socket, got, pong, receive_msg, deliver, softbts_msg}
use soft_bts.Trx
use soft_bts.Trx.{Answers, id_req, wrote, listen, accept_connection, trx_cb}
use soft_bts.Trx.Table.{find_index, find_empty_record}
use soft_bts.Message
use soft_bts.Message.{Request, manager}
use soft_bts.Oml.Refines.{view}
use soft_bts.Site.Dialogue.{
  Spoken, on, controller, signalling, transceiver, asks, identifies, silent, dialogue,
}
use soft_bts.Loop.Session.{
  Delivery, Information, Turn, delivers, calls, informs, AllListed, run_refines,
}
use soft_bts.Tests.Links.{start_socket, start_given}
use soft_bts.Loop.{Ready, oml, rsl, trx, caller, World, run}
use soft_bts.Link.Converse.{frames, reply, replies}
use soft_bts.Loop.Closed.{closed, IsStale, run-closed}
use soft_bts.Loop.Safety.{IsSafe, run-IsSafe}
use soft_bts.Tests.{good_net, stack, fresh, with_bytes, start_site}

abbrev pub start : World
start = record { bts = fresh; table = Trx.init; oml_fd = 4 }

abbrev pub answers : Answers
answers = record { accepted = some 11; registers = true; writes = true }

abbrev ping_socket : Socket
ping_socket = record { header = got (0 ∷ 1 ∷ 0xfe ∷ []); body = λ n. got (0 ∷ []) }

abbrev pub script : List Ready
script = caller answers ∷ trx 11 stack ping_socket ∷ []

abbrev after : World
after = record {
  bts = record fresh { log = killed ∷ sent 11 pong ∷ [] };
  table = record {
    fds = some 11 ∷ none ∷ none ∷ none ∷ [];
    msg_trx = (with_bytes (0 ∷ 1 ∷ 0xfe ∷ 0 ∷ [])).buf;
    actions = wrote 11 id_req ∷ listen 0 ∷ [];
  };
  oml_fd = 4;
}

script-run : run good_net 1 script start ≡ ok after
unfolding run accept_connection trx_cb find_index find_empty_record receive_msg deliver softbts_msg
script-run = refl

start-IsSafe : IsSafe start
start-IsSafe = record { framed = tt; entries = refl }

run-IsSafe_example : IsSafe after
run-IsSafe_example = run-IsSafe good_net 1 script start start-IsSafe script-run

-- The controller starts the site manager after a transceiver has connected.
abbrev pub delivery : Delivery 1
delivery = record {
  stack = stack;
  sock = start_socket;
  body = start_site;
  said = asks (Message.start manager);
  some_bytes = omega arith;
  gives = start_given;
  means = λ b. record { formatted = refl; typed = refl; classed = refl; slot = tt; wants = tt };
}

-- The controller asks for the identity.
abbrev asking : Socket
asking = record { header = got (0 ∷ 1 ∷ 0xfe ∷ []); body = λ n. got (4 ∷ []) }

abbrev pub request : Delivery 1
request = record {
  stack = stack;
  sock = asking;
  body = 4 ∷ [];
  said = identifies;
  some_bytes = omega arith;
  gives = record {
    hi = 0;
    lo = 1;
    hi_byte = omega arith;
    lo_byte = omega arith;
    counts = refl;
    fits = omega arith;
    head = refl;
    rest = refl;
  };
  means = λ b. refl;
}

-- Information that is transparent to the station.
abbrev info_socket : Socket
info_socket = record { header = got (0 ∷ 1 ∷ 0 ∷ []); body = λ n. got (1 ∷ []) }

abbrev pub information : Information
information = record {
  stack = stack;
  sock = info_socket;
  body = 1 ∷ [];
  some_bytes = omega arith;
  gives = record {
    hi = 0;
    lo = 1;
    hi_byte = omega arith;
    lo_byte = omega arith;
    counts = refl;
    fits = omega arith;
    head = refl;
    rest = refl;
  };
  harmless = λ b h. omega (arith, h.0.0);
}

-- The transceiver that has connected gives its identity.
abbrev identity_socket : Socket
identity_socket = record { header = got (0 ∷ 2 ∷ 0xfe ∷ []); body = λ n. got (5 ∷ 0 ∷ []) }

abbrev pub telling : Delivery 1
telling = record {
  stack = stack;
  sock = identity_socket;
  body = 5 ∷ 0 ∷ [];
  said = silent;
  some_bytes = omega arith;
  gives = record {
    hi = 0;
    lo = 2;
    hi_byte = omega arith;
    lo_byte = omega arith;
    counts = refl;
    fits = omega arith;
    head = refl;
    rest = refl;
  };
  means = λ b. (omega arith, omega arith);
}

-- The start of the site manager comes from the transceiver.
abbrev pub turns : List (Turn 1)
turns =
    delivers controller request
    ∷ calls answers
    ∷ delivers (transceiver 11) telling
    ∷ informs signalling information
    ∷ delivers (transceiver 11) delivery
    ∷ []

abbrev pub said : List Spoken
said =
    on controller identifies
    ∷ on (transceiver 11) silent
    ∷ on (transceiver 11) (asks (Message.start manager))
    ∷ []

abbrev pub events : List Ready
events =
    oml stack asking
    ∷ caller answers
    ∷ trx 11 stack identity_socket
    ∷ rsl stack info_socket
    ∷ trx 11 stack start_socket
    ∷ []

pub turns-AllListed : AllListed turns (none ∷ none ∷ none ∷ none ∷ [])
unfolding find_index find_empty_record
turns-AllListed = (tt, ((0, refl), (tt, ((0, refl), tt))))

run_refines_example :
    (w' : World) × (run good_net 1 events start ≡ ok w')
    × ((view w'.bts, w'.bts.log) ≡ dialogue good_net 4 said (view fresh) [])
run_refines_example = run_refines good_net 1 turns start turns-AllListed

-- The controller has sent a ping and closed the link: three rounds of the loop.
abbrev left : World
left = record start { bts = with_bytes (0 ∷ 1 ∷ 0xfe ∷ 0 ∷ []) }

left-IsStale : IsStale left.bts
left-IsStale = record { proto = refl; fits = omega arith; quiet = inr (omega arith) }

run-closed_example :
    (w' : World) × (run good_net 1
        (oml stack closed ∷ oml stack closed ∷ oml stack closed ∷ [])
        left
      ≡ ok w')
    × (frames w'.bts.log ≡ sent 4 pong ∷ sent 4 pong ∷ sent 4 pong ∷ [])
    × (w'.table ≡ Trx.init)
unfolding frames reply replies
run-closed_example = run-closed good_net 1 (stack ∷ stack ∷ stack ∷ []) left left-IsStale
