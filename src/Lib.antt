-- ===== src/Lib.antt =====
-- mirror.cloud: an emulator of cloud APIs, in Go. A service is data, a bundle of the Behavior IR,
-- that one engine (internal/engine) executes over a small kernel: a namespaced store, a clock, a
-- journal, a bus and a source of randomness.
--
-- Store.antt models internal/store/store.go: the `Memory` store with its scopes and collections
-- (`get`, `put`, `delete`, `list_locked`, `scopes`), Store/Txn.antt its transactions (`run_txn`),
-- Store/Snapshot.antt `Snapshot` and `Restore`. The mutex serialises the methods, so each is one
-- step on a record; Go maps are association lists (GoMap.antt), whose order no result depends on,
-- and strings are lists of bytes (Bytes.antt). A snapshot is the list of files of its archive,
-- and JSON is the parameter `Json`, since it does not write every text as it is.
--
-- Statechart.antt models the records with a lifecycle of internal/engine/statechart.go: the two
-- reserved members are fields of a record, a deadline is an integer of nanoseconds that passes
-- through a float64 when it is read (Float.antt), and `settle` has the fuel that the source's own
-- bound gives it. Statechart/Alias.antt models `resolveKeyAlias`: each turn sees another key of
-- the alias collection, so one turn more than it has entries is enough.
--
-- Clock.antt models the controllable clock of internal/clock/clock.go, with channels as numbered
-- one-value buffers; Bus.antt internal/bus/bus.go, a publication being the list of the calls it
-- makes; Journal.antt internal/journal/journal.go. Each method that holds the mutex is one step.
--
-- Cursor.antt and Page.antt model internal/engine/cursor.go and internal/engine/page.go. A
-- float64 is an exact dyadic rational; the sum in `pageCursor` has at most 53 significant bits
-- and does not round. Sequences and milliseconds are integers, and the differences in `boundOf`
-- are taken not to overflow an int64.
--
-- Iam.antt models the policy evaluation of internal/services/aws/iam/authorizer.go: Iam/Glob.antt
-- `globMatch`, an index being the rest of the string from there on, with as many turns as (text
-- length + 2) * (pattern length + text length + 1), which is above what each turn brings nearer
-- to the end; Iam/Policy.antt the statements and their patterns; Iam/Condition.antt the condition
-- operators; Iam/Decide.antt the decision. Documents are decoded JSON values (Json.antt). Letter
-- case is folded for ASCII, and of two condition keys that differ in case alone the first is
-- taken. What strconv.ParseFloat reads is a parameter. Loading documents from the store and
-- collecting the values of a request are not modelled.
--
-- Chunked.antt models internal/edge/chunked.go on a body read whole, Chunked/HeaderLine.antt the
-- header of a chunk, Chunked/TrailerLines.antt the trailers; each turn of a loop takes a line, so
-- the length of the body (and one, for the trailers) is turns enough.
--
-- Hier.antt models `hierList` of internal/engine/tagmatch.go.
--
-- Rand.antt models internal/rand/rand.go: SHA-256 is a parameter, of which only the length of its
-- result is assumed, and the counter wraps at 2^64. A block of the stream has bytes, so as many
-- turns as bytes are enough.
--
-- Dynamo.antt models internal/services/aws/dynamodb/expr/expr.go: Dynamo/Value its values and
-- their conversions, Dynamo/Split and Dynamo/Parse the parser, Dynamo/Eval the evaluator,
-- Dynamo/Sets and Dynamo/Update the update expressions and projections. The conversions of
-- strconv are the parameter `Strconv`. The parser calls itself on shorter texts only, so its fuel
-- is the length of the text and one. Placeholders are replaced in the order in which the map of
-- names is ranged over. Text is ASCII.
--
-- Schedule.antt models internal/services/aws/scheduleexpr/expression.go in UTC: Schedule/Calendar
-- the instants and the steps of time.Date and Add, Schedule/Cron the fields and what they match,
-- Schedule/Next `next`, `First` and `After`, Schedule/Field and Schedule/Parse the parser. The
-- search of `next` goes forward in every turn, so the minutes left up to 2200 are turns enough.
-- The loop over a range adds its step on an int64, which wraps round; three turns more than the
-- last value are enough.
--
-- Tags.antt models the tag conditions of internal/bir/tagexpr.go. The parser makes an expression,
-- which `holds` evaluates, where the code makes a function; its position is the text that is
-- left. Each call of the parser takes one of the turns given, and five turns for each byte are
-- enough.
--
-- Events.antt models the event patterns of internal/services/aws/events/events_extra.go,
-- `matchFields` and what it calls, on the JSON values of Dynamo/Value. The wildcard's regular
-- expression is built as the code builds it, with QuoteMeta and ReplaceAll; MatchString,
-- ParseFloat, Marshal and CIDR blocks are the parameter `Library`. An object's anything-but
-- clause is answered by a scan of the object, so that the recursion goes to parts of the pattern.
--
-- Resolve.antt models the resolution of hosts of internal/edge/resolve.go: the dotted endpoint
-- prefixes, the declared hosts, and what is read of a host and of a credential scope.
--
-- Not modelled: the text of snapshots and cursors, wall time, net/http, the wire codecs, and the
-- handlers of the services, which run over the same store; the engine's evaluation of effects and
-- queries, which rests on CEL programs, is still to come.
pub mod Common
pub mod Bytes
pub mod GoMap
pub mod Store
pub mod Float
pub mod Statechart
pub mod Clock
pub mod Bus
pub mod Journal
pub mod Cursor
pub mod Json
pub mod Page
pub mod Iam
pub mod Hier
pub mod Rand
pub mod Chunked
pub mod Dynamo
pub mod Schedule
pub mod Tags
pub mod Events
pub mod Resolve
