-- ===== src/Tests/Connections.antt =====
-- The table of connections.
use soft_bts.Base.{
  ℕ, ◌≡◌, ◌≤◌, refl, true, false, none, some, List, [], ◌∷◌, get_elem?, length, ◌==◌, if◌then◌else◌,
}
use soft_bts.Base.Outcome.{ok}
use soft_bts.Link.{Socket, got, receive_msg, deliver}
use soft_bts.Trx
use soft_bts.Trx.{
  Trx, Answers, Action, id_req, full_text, accept_connection, trx_cb, wrote, closed, listen,
  unlisten,
}
use soft_bts.Trx.Table.{find_index, find_empty_record}
use soft_bts.Trx.Accept.{accept_connection-first}
use soft_bts.Trx.Capacity.{free, call_all, call_all-free}
use soft_bts.Trx.Connections.{connections, size}
use soft_bts.Loop.{Ready, trx, caller, World, run}
use soft_bts.Loop.Connections.{History, run-History}
use soft_bts.Tests.{good_net, stack, fresh, with_bytes}

abbrev one_taken : Trx
one_taken = record Trx.init { fds = some 7 ∷ none ∷ none ∷ none ∷ [] }

abbrev all_taken : Trx
all_taken = record Trx.init { fds = some 7 ∷ some 8 ∷ some 9 ∷ some 10 ∷ [] }

abbrev good : Answers
good = record { accepted = some 11; registers = true; writes = true }

abbrev unwritten : Answers
unwritten = record { accepted = some 11; registers = true; writes = false }

-- The entry before is in use; the message could not be written.
accept_connection-first_example : accept_connection unwritten one_taken ≡ (
  false,
  record one_taken {
    fds = some 7 ∷ some 11 ∷ none ∷ none ∷ [];
    actions = closed 11 ∷ wrote 11 id_req ∷ listen 1 ∷ [];
  },
)
accept_connection-first_example =
    accept_connection-first unwritten one_taken (7 ∷ []) (none ∷ none ∷ []) 11 refl refl

-- Four callers whose message could not be written, and two more.
call_all-free_example :
    let after =
      (call_all (unwritten ∷ unwritten ∷ unwritten ∷ unwritten ∷ good ∷ good ∷ []) one_taken).fds in
    (free after ≡ 0)
    × ((j sd : ℕ) → get_elem? one_taken.fds j ≡ some (some sd) → get_elem? after j ≡ some (some sd))
    × (length after ≡ 4)
unfolding free
call_all-free_example =
    call_all-free (unwritten ∷ unwritten ∷ unwritten ∷ unwritten ∷ good ∷ good ∷ []) one_taken

-- A message of no bytes, of a protocol that the program does not know, with more behind it.
abbrev empty_socket : Socket
empty_socket = record {
  header = got (0 ∷ 0 ∷ 5 ∷ []);
  body = λ n. if n == 0 then got [] else got (1 ∷ []);
}

-- A caller is let in, and leaves.
abbrev visit : List Ready
visit = caller good ∷ trx 11 stack empty_socket ∷ []

abbrev start : World
start = record { bts = fresh; table = Trx.init; oml_fd = 4 }

abbrev after_visit : World
after_visit = record start {
  table = record {
    fds = none ∷ none ∷ none ∷ none ∷ [];
    msg_trx = (with_bytes (0 ∷ 0 ∷ 5 ∷ [])).buf;
    actions = unlisten 0 ∷ closed 11 ∷ wrote 11 id_req ∷ listen 0 ∷ [];
  };
}

visit-run : run good_net 1 visit start ≡ ok after_visit
unfolding run accept_connection trx_cb find_index find_empty_record receive_msg deliver
visit-run = refl

run-History_example :
    History visit (connections Trx.init) (connections after_visit.table)
    × (size (connections after_visit.table) ≤ 4)
run-History_example = run-History good_net 1 visit start refl visit-run
