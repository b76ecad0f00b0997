-- ===== src/Lib.antt =====
-- A library about BgpFlowspecReceiver, a BGP speaker that receives unicast and FlowSpec routes, keeps
-- them in a table, and shows them over HTTP.
--
-- The parts of the program and the files that model them:
--   * Wire: src/wire.rs with src/wire_helpers.rs, which it includes. Wire/Cursor has take, u16_at,
--     read_be_int and the loops over a slice; Wire/Message the header, message, build_open and open;
--     Wire/Address the texts of addresses and hex_encode; Wire/Prefix parse_prefix, prefix_string,
--     mask_prefix and unicast; Wire/FlowSpec components and flowspec with the operators and their
--     texts; Wire/Community the extended communities; Wire/Attribute attr_name and attribute;
--     Wire/Update the function update.
--   * Rib: the table of src/app.rs: Route, Data, metrics, count, insert, remove and clear of Data, and
--     in Rib/Apply apply_update, which turns a decoded UPDATE into removals and insertions.
--   * View: what the HTTP handlers of src/app.rs compute from the table: routes (View/Page), search
--     (View/Search) and Data::stats (View/Stats).
--   * History: the bounded history of App::emit and clear_history in src/app.rs; History/Window sets it
--     beside the list of everything that was emitted.
--   * Session: src/session.rs: Config::validate (Session/Config) and Config::from_value (Session/Value),
--     read_message (Session/Framing), incoming and active (Session/Peers), connected as a step on each
--     event, which calls open, update and apply_update as the code does (Session/Connection), and the
--     loop of run over the connections (Session/Runs).
--   * App: the rest of src/app.rs. App/State has App with emit, set_state, stop, start and health, and the
--     end of run; App/Flush the calls on files of flush; App/Machine the lock `control`, the tasks of
--     the session and of the capture, and the ticks of src/main.rs, as an interleaving of their
--     sections; App/Streams export, export_body and events; App/Pool the pool and reclaim_memory;
--     App/Http the router, the snapshot and the handler that starts a session.
--   * Capture: src/capture.rs: flush, and in Capture/Lines the reading of tcpdump's output.
--   * Main: src/main.rs: the options and the configuration that main makes of them, and in
--     Main/Startup what main does before it spawns its tasks.
--   * Json: the values of serde_json, for the configuration and the events.
--   * Prelude: what these share: tests on numbers, lists measured by native numbers, bits, texts, and the
--     two kinds of maps.
--
-- How code is modelled. A byte and a machine word is a natural number, and what wraps around is written
-- out. A slice that the code advances is given and returned; `Wire/Result` has the outcome of a
-- function: Ok, Err, or a fault, which is a panic or fuel that ran out. Every loop over a slice has the
-- length of the slice as fuel, one more where the loop runs before it tests, and each round takes a
-- byte at least, so it is enough. In the table and the history a panic is `none`. JSON objects with
-- fixed keys are records; maps are association lists, with text keys in the order of the keys.
--
-- The tasks. App/Machine keeps a program with its tasks in a record, World, and a function, act, does what
-- one section of one task does between two awaits: a label names the section, and one whose task is
-- not there does nothing, so that every list of labels is a run. A handler that holds `control` waits in
-- two stages for the tasks that it has told to stop. The sections of one task that follow each other
-- at once are one label.
--
-- Parameters stand for the code of other packages and for tables that are not written out: the SHA-1 of
-- serde_json's text that is a route's id, the texts of events and routes and the JSON of a configuration,
-- serde_json's parsing and the reading that serde derives, the regular expression of the capture, Rust's
-- parse of addresses, to_lowercase, and whether the listener is bound. A strong count is the number of
-- handles, in the pool and in the list of those outside, which the users change as they like. A clock
-- is an argument; apply_update reads it once for all routes of an UPDATE. The sockets and timers are a
-- list of events, and how each call on a file ends is a function of its place.
--
-- Not modelled: axum, tokio and the sockets under them; the queue of handlers that wait for `control`, which
-- is taken to be free when one asks; two flushes at the same time, each of which is one step; tcpdump as a
-- process and the lines of its other pipe; clap's parsing, the signals and the log; the allocator; the
-- web page.
pub mod Prelude
pub mod Wire
pub mod Rib
pub mod View
pub mod Capture
pub mod History
pub mod App
pub mod Session
pub mod Json
pub mod Main
