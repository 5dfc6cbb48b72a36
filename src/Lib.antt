-- ===== src/Lib.antt =====
-- softBTS, a software GSM base transceiver station: its links to the base station controller, as
-- it handles them in src/.
--
-- The station reads from three kinds of links. `main` (src/softbts.c) loops over what becomes
-- ready; the callbacks of src/bts_init.c and src/trx_init.c call `receive_msg` (src/bts_nm.c),
-- which reads a message into a buffer and hands it, by its protocol, to `softbts_msg` or `oml_msg`
-- (src/bts_nm.c) or to `rsl_msg` (src/abis_rsl.c). The O&M handlers compose their replies in the
-- buffer that holds the request, and keep the states of twelve managed objects in global variables
-- (src/softbts.c).
--
-- Code:
--   Nm            enumerations and constants of src/bts_nm.h and src/bts_init.h; Nm/Layout the packed
--                 structures, from which the offsets in the other files come
--   Buffer        the message buffer of 255 bytes: stores, loads, byte order
--   Bts           the global state, and `send`; Bts/Report has the functions that build and send
--                 one message each (`sw_activate_request` to `chg_adm_state_ack`)
--   Oml           `oml_msg`: Oml/Activate, Oml/Opstart, Oml/Admin have the cases of the first
--                 switch, Oml itself the dispatch and the manufacturer's message
--   Oml/Attributes  `bts_get_attr`
--   Link          `softbts_msg`, `initial_state_report`, `receive_msg`
--   Rsl           `rsl_msg` and `rsl_mg_cch`; Rsl/Info the structures of src/L3_0408.h, Rsl/Shown
--                 what is printed of them, Rsl/Bits and Rsl/Rest `is_bit_set`, `is_bit_H` and
--                 `rest_octets_si3`
--   Trx           the table of src/trx_init.c with its callbacks; Trx/Table its two searches
--   Loop          `oml_connection`, `rsl_connection` and the loop of `main`
--   Daemon        the lock file of src/softbts.c: `daemonize`, `kill_background`, `signal_handler`;
--                 Daemon/Decimal how a process id is written to it and read from it
--   Startup       `handle_options` and `main` up to its loop, `socket_init` (src/bts_init.c) and
--                 `trx_socket_init` (src/trx_init.c)
--   Program       `main`, its loop included, which ends where `kill_background` ends the process
--   Glib          `g_strjoin` and `g_snprintf`, a parameter with laws
--   Globals       `set_globals` of src/softbts.c and the paths of the lock file and the log
--   Logger        `logger` and `debug` of src/logger.c
--   Names         `get_name` (src/L3_utils.c) and the tables of src/L3_0408.h and src/abis_rsl.h
--   Text          `hexdump`, `print_bits` and `str_replace_char` of src/logger.c
-- Specification:
--   Message       O&M messages and requests as 3GPP TS 12.21 lays them out
--   Site          the states of the managed objects, and the answer to each request; Site/Dialogue
--                 what is said on the links, and what the station answers
--   Rsl/Layout    System Information 3 as 3GPP TS 04.08 lays it out, Rsl/Cells 1 and 2, which have
--                 lists of cells
--   Link/Converse  `replies`, what the station answers once it has introduced itself
--   Trx/Connections  the table as a collection of descriptors without an order; Loop/Connections how
--                 each round of the loop may change it
-- The other files hold lemmas and theorems on the file they stand under; Tests runs the code.
--
-- A handler is a function on the whole state `Bts`. Its log lists the calls of `send` with their
-- bytes, and of `kill_background`; it goes on as the handlers do where `kill_background` returns,
-- which it does unless the lock file tells the process itself. `main` (Program) goes through the log
-- with the lock file after each round of the loop: where a call ends the process, what was sent before
-- it is sent, and nothing else happens, neither what the handler has logged behind it nor any further
-- round. A handler has no undefined behaviour behind a call of `kill_background`. Undefined behaviour that a
-- message can provoke (an access outside the buffer or an array, a pointer that was never set) is
-- the outcome `fault`; variables that are read before they are set are the parameter `Stack`. What
-- the system answers (the bytes of `recv`, the success of `send`, `accept`, `write` and of the
-- registration of a descriptor) is a parameter too, and which descriptor is ready next is a list.
-- A byte is a number, and counters of 8 bits wrap where the source lets them; the host is
-- little-endian, as the constants of src/bts_nm.c suppose.
--
-- Three loops run on fuel. The walk of `bts_get_attr` takes one round for an attribute, so fuel for
-- as many rounds as there are attributes is enough (128 where the counter wraps), and 371 rounds are
-- enough to decide what any message comes to (243 positions, and 128); `looping` is the outcome of a
-- run without enough. `print_bits` takes eight rounds, one for each bit of its mask,
-- and `str_replace_char` as many as the text has characters, 25 for the text of `asctime`.
-- Ten rounds write the digits of a process id, which is below 2 ^ 31; in theorems on `daemonize` it
-- has nine digits at most, for which its `str` has room. All other loops are recursions on the table or
-- on the list they go over.
--
-- The system of src/softbts.c is the lock file, who holds its lock, and the daemons with a SIGTERM
-- that they have not acted on; whether `fork`, `open`, `remove`, `connect` and the like succeed is a
-- parameter. A process that sends the signal to itself exits before `kill` returns.
--
-- Not modelled: the handlers' calls of `logger` and `debug`, which change nothing that they read, but
-- for the dumps of `receive_msg` and the values of the System Information messages (of what
-- `print_bits` writes beside those, a sum of fields alone is kept); the limits that
-- `bts_core_set_rlimits` sets; `print_help` and `print_version`; src/abis_utils.c, which has no code;
-- and lib/, which holds copies of other projects (select, timers, lists, talloc and the Zebra terminal,
-- which `main` opens on a port of its own).
pub mod Base
pub mod Nm
pub mod Buffer
pub mod Bts
pub mod Message
pub mod Site
pub mod Oml
pub mod Rsl
pub mod Link
pub mod Trx
pub mod Loop
pub mod Glib
pub mod Globals
pub mod Logger
pub mod Daemon
pub mod Startup
pub mod Program
pub mod Names
pub mod Text
pub mod Tests
