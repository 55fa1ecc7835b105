-- ===== src/Lib.antt =====
-- Lab-Gateway: the Python services behind a gateway to remote laboratories.
--
-- The ops worker (ops-worker/worker.py) keeps a catalog of Lab Station hosts, wakes and commands
-- them over Wake-on-LAN and WinRM when a reservation starts and ends, logs each operation, mails
-- about failures, delivers session observations to an audit service from an outbox table, and
-- revokes Guacamole tokens from a queue table. The FMU runner (fmu-runner/) runs simulations for
-- clients, a bounded number for each lab, behind sliding-window rate limits; it verifies their
-- tokens, and in Station mode it passes their sessions on to a Station. The ops worker also keeps
-- the Asset Administration Shells of the labs on a BaSyx server up to date.
--
-- Prelude and its children: numbers, lists, texts, JSON values, tables keyed by a column, ORDER BY.
-- Hosts: `merge_host_configs`, `HostRegistry`, `upsert_dynamic_host`, credential references.
-- WinRm: `_winrm_connection_policy`, `run_labstation_command`, and `validate_winrm_catalog`
-- (Validate).
-- Provision: `build_provisioned_host` with `normalize_labs` and the check of lab candidates.
-- Operations: `record_reservation_operation`, the alert decision and the retried mails.
-- Reservations: `wol_and_wait`, `perform_wake_step` and `perform_command_step` (Perform), and the
-- handlers `handle_reservation_start` and `handle_reservation_end`; they use Hosts, WinRm and
-- Operations.
-- Orchestrator: `ReservationOrchestrator.scan_once`, which drives the handlers of Reservations,
-- over the tables, queries and status updates of Rows.
-- Timeline: paging parameters and phases of a reservation's timeline.
-- Outbox: `enqueue_session_observation` (Ingest), `_claim_session_observation_outbox_rows`
-- (Claim), `deliver_session_observation_outbox` with its marks (Deliver), the retry delay.
-- Revocation: `enqueue_guacamole_token_revocation`, `_reconcile_guacamole_observations` (Observe),
-- which reports sessions to Outbox, and `process_guacamole_token_revocations` (Round).
-- Simulations: slots, running futures, the end of `run_simulation` and `cancel_simulation` of
-- fmu-runner/main.py. Balance holds the interleavings of many runs.
-- Access: claims, labs, reservations and timeouts of fmu-runner/main.py, storage keys and
-- `_resolve_fmu_path` (Files), `run_simulation` up to the bounds of its options (Run).
-- Auth: fmu-runner/auth.py: issuer and key URL, the cache of keys and its health (Keys), and the
-- verification of tokens (Verify). Log holds the sequences of fetches.
-- Station: the Station backend of fmu-runner/fmu_backend.py: what a token permits, the messages
-- (Message) and HTTP requests (Requests) to Station, and the WebSocket proxy of
-- fmu-runner/station_ws_proxy.py (Proxy), which uses Access, Auth, RateLimit and those messages.
-- Proxy/Opened holds the sequences of messages of a connection.
-- Aas: the AAS documents of ops-worker/aas_generator.py, the policy on servers (Endpoint) and the
-- synchronisation (Sync).
-- Links: the AAS links of fmu-runner/main.py.
-- Realtime: the sessions of fmu-runner/realtime_ws.py: the event queue of a connection (Queue), the
-- state and the window (Session), `initialize` (Commands), steps and the runner (Runner), the
-- commands of the WebSocket and the clean-up (Dispatch), the response cache (Cache), and
-- "session.create" (Create), which uses Access, RateLimit and the slots of Simulations. Life holds
-- the sequences of commands, rounds of the runner and clean-ups.
-- Credentials: the store of the WinRM logins of ops-worker/worker.py and its rotation in
-- ops-worker/rotate_secrets.py.
-- Guacamole: connection selectors and temporary accounts of ops-worker/worker.py.
-- RateLimit: the limiter that fmu-runner/main.py, realtime_ws.py and station_ws_proxy.py share.
--
-- How the code is read. A function of the code is a function on the state that it changes; a
-- transaction that may fail is a Boolean argument, and one that fails changes nothing. `none`
-- stands for an exception that leaves a function where the code has one. What the code gets from
-- outside (clocks, answers of HTTP, probes, remote commands, hashes, DNS, regular expressions
-- outside Access, Station, Aas and Guacamole, isalnum, URL parsers, PyJWT, file systems, FMUs,
-- floats, encryption) is an argument. Times are whole seconds, in RateLimit and Auth ticks of any
-- length. JSON values are `Value`; `lower`
-- maps the ASCII capitals, which is what identifiers hold. SQL statements are functions on the
-- list of rows in order of insertion; text comparison in SQL is exact, but for the names of
-- Guacamole's users, whose collation ignores case. The theorems about a table
-- ask that its key column holds distinct keys, which the schema declares.
--
-- Bounds and fuel. Integers of Python are unbounded, and so are those here. The posting loop has
-- the retries plus one as its fuel, which is the number of rounds the code's test allows; the
-- printer of decimal digits has the number plus one, and the loop that trims the response cache
-- the number of ids. `run_until` of a session takes the world for each of its steps, and
-- Realtime/Until says how many are enough. All other loops are structural.
--
-- Not modelled: the AAS documents of fmu-runner/aas_generator.py, heartbeat polling and discovery
-- (I/O or left for later), `session.attach`, the heartbeat and the typed values of a realtime
-- session, `LocalFmuBackend`, which only calls what it is given, the texts of error messages, the
-- Lua of openresty, the C++ of fmu-proxy-runtime, deployment files. A command of a realtime session
-- and a message of the Station proxy are one step: what happens while one waits for a send or for
-- the backend is not in the model. The sequences of Realtime/Queue/Log have no step in which an
-- emitted output resets `_pending_queue_drops`. Redirects that `requests` follows are not in the
-- model of Aas.
pub mod Prelude
pub mod Aas
pub mod Access
pub mod Auth
pub mod Credentials
pub mod Guacamole
pub mod Hosts
pub mod Links
pub mod Operations
pub mod Orchestrator
pub mod Outbox
pub mod Provision
pub mod RateLimit
pub mod Realtime
pub mod Reservations
pub mod Revocation
pub mod Simulations
pub mod Station
pub mod Timeline
pub mod WinRm
