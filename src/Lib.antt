-- ===== src/Lib.antt =====
-- `dns query`, a Nushell plugin that asks name servers, from its settings to the values it gives.
--
-- A call settles a configuration from the command line, the plugin's configuration and the machine
-- (src/dns/config.rs, with names and defaults of src/dns/constants.rs), turns its input into
-- questions (src/dns/serde.rs), makes or reuses a client (src/dns/mod.rs, src/dns/client.rs), sends
-- the questions and turns each answer into a Nushell value (src/dns/serde.rs). The command puts these
-- together, for a value or for a stream of values (src/dns/commands/query.rs).
--
-- The modules:
--   Prelude      shared: native numbers with integers and the casts `as i64`, `as u16`, `as u64`;
--                lists; outcomes (`Res`: a value, an error or a panic) with `?` as a bind.
--   Nu           spans, errors and values of nu_protocol as the code builds and takes them apart
--                (Value::Record is `rec`); Nu/Protocol has the calls of it, as a parameter with laws.
--   Std          the standard library's UTF-8 decoder (Std/Utf8), decimal printing, to_ne_bytes and
--                HashMap (an association list, its order of iteration a parameter).
--   Constants    src/dns/constants.rs.
--   Hickory      names, record types and classes of hickory as a parameter with laws; messages and
--                record data as the accessors show them.
--   Config       src/dns/config.rs: Config/Settings has one function for each stage of
--                Config::from_values, Config/FromValues composes them and has the three callers. The
--                closure get_value is a function that passes its captured state on. Config/Answers
--                has the stages as a function of the nine answers, and Config/Laws the theorems.
--   Serde        src/dns/serde.rs: Serde/Parse (RType, DNSClass, Protocol, DnssecMode from values),
--                Serde/Query (Query::into_value, Query::try_from_value), Serde/Message (Message,
--                Header, Record), Serde/Rdata (RData::into_value arm by arm, Opt, Edns), Serde/Code
--                (code_to_record_u16 and _u8) and Serde/Util (the module util). Serde/Message/ReadBack has
--                readers of a shown message, Serde/Tidy the test for columns named twice.
--   Client       src/dns/client.rs: `new`, with the macro make_clients, and `send`. A stream of
--                responses is the list of its items.
--   Cache        src/dns/mod.rs: Dns::dns_client. A call is a state machine that moves at the points
--                where it awaits; `step` moves one call, `run` any interleaving of any number of
--                calls, with failed connections and calls that are dropped by their timeout.
--   Command      src/dns/commands/query.rs: Command/Query is DnsQuery::query, Command/Run is run_impl
--                from the call to its output, Command/Signature what is declared to Nushell.
--                Command/Stream is the branch on a stream: stream_requests, coordinate_queries, the
--                spawned queries, watch_sigterm and the consumer move one at a time (`Step`), over
--                two channels of `--tasks` places, after the coordinator has reserved a buffer of as
--                many (Reserved). Command/Stream/Conserved has what they hold together; Order, Bounds
--                and Ends are about the order, the bounds and the end of any run,
--                Ends/Progress about what a run can go on to, Given about what one shows that may
--                be cancelled.
--   Plugin       src/dns/mod.rs: Dns, the state between calls, and a session: any calls of `run`, one
--                after the other, and interrupts. Plugin/Served has the calls with a client at hand,
--                Plugin/OneClient the theorem. tokio's task tracker is a parameter.
--   Tests        concrete runs, with small functions for the parameters.
--
-- Recursion follows the input's structure everywhere but in decimal printing, whose fuel `suc n` is
-- more than the digits of `n`. Widths are written out where the code casts; usize has 64 bits. A
-- number read from hickory or an i64 of Nushell is assumed to be in its type's range only where a
-- theorem says so.
--
-- What times out, and in which order FuturesUnordered gives back what was collected in it, are
-- parameters. So is whether tokio makes a channel of so many places, and `Vec::with_capacity` a buffer
-- for so many values, or panics; the documented limits, 2^61 - 1 places and 2^63 - 1 bytes, are their
-- laws. A blocked thread is one that has no step.
--
-- What the code does with a value that it only prints is the printed text. Not modelled: logging, the
-- entry points, which only call nu_plugin, queries that still run after the coordinator has given
-- up, and memory that runs out, which aborts the process.
pub mod Prelude
pub mod Nu
pub mod Std
pub mod Constants
pub mod Hickory
pub mod Config
pub mod Serde
pub mod Client
pub mod Cache
pub mod Command
pub mod Plugin
mod Tests
