-- ===== src/Bts.antt =====
-- The global state of src/softbts.c and src/bts_init.c that the message handlers of src/bts_nm.c
-- share, and `send`.
pub mod Report
pub mod Log
use soft_bts.Base.{ℕ, ◌+◌, Bool, true, false, List, [], ◌∷◌, ◌==◌, if◌then◌else◌}
use soft_bts.Buffer.{Buffer, load16, htons, bytes}
use soft_bts.Nm.{AdmState, adm_code, OpState, op_code}

-- What the program does to the world around it: calls of `send` with the socket and the bytes,
-- and of `kill_background`.
pub data Event : Type 0 where
  sent : ℕ → List ℕ → Event
  killed : Event

-- `send` of the C library: whether it succeeds (does not return -1) may depend on all that was
-- sent before.
abbrev pub Net : Type 0
Net = List Event → ℕ → List ℕ → Bool

pub record Bts : Type 0 where
  pub buf : Buffer
  pub bts_id_resp : Bool
  pub sw_site_manager : ℕ
  pub sw_bts : ℕ
  pub manager_admin_state : ℕ
  pub manager_opstate : ℕ
  pub bts_admin_state : ℕ
  pub bts_opstate : ℕ
  pub baseb_transc_admin_state : ℕ
  pub baseb_transc_opstate : ℕ
  pub radio_carrier_admin_state : ℕ
  pub radio_carrier_opstate : ℕ
  pub channel_admin_state : ℕ → ℕ
  pub channel_opstate : ℕ → ℕ
  pub rsl_fd : ℕ
  -- Newest first.
  pub log : List Event

-- The initial values. `{NM_STATE_LOCKED}` initialises the first element of an array of eight, and
-- C sets the others to 0. The buffers are zero, and the sockets come from `socket_init`.
abbrev pub init : ℕ → Bts
init rsl_fd = record {
  buf = λ i. 0;
  bts_id_resp = false;
  sw_site_manager = 0;
  sw_bts = 0;
  manager_admin_state = adm_code AdmState.locked;
  manager_opstate = op_code OpState.disabled;
  bts_admin_state = adm_code AdmState.locked;
  bts_opstate = op_code OpState.disabled;
  baseb_transc_admin_state = adm_code AdmState.locked;
  baseb_transc_opstate = op_code OpState.disabled;
  radio_carrier_admin_state = adm_code AdmState.locked;
  radio_carrier_opstate = op_code OpState.disabled;
  channel_admin_state = λ ts. if ts == 0 then adm_code AdmState.locked else 0;
  channel_opstate = λ ts. if ts == 0 then op_code OpState.disabled else 0;
  rsl_fd = rsl_fd;
  log = [];
}

-- A call of `send` whose result the program does no more than log.
abbrev pub send : ℕ → List ℕ → Bts → Bts
send sd frame s = record s { log = sent sd frame ∷ s.log }

-- `send(socketd, msg, ntohs(head->len)+3, 0)`
abbrev pub send_buffer : ℕ → Bts → Bts
send_buffer sd s = send sd (bytes s.buf 0 (htons (load16 s.buf 0) + 3)) s
