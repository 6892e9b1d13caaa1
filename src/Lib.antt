-- ===== src/Lib.antt =====
-- Trithemius: a chat program over libp2p, with onion services and SOCKS proxies. This library
-- models the parts of the program that are its own logic, and proves what they promise.
--
-- The parts. The engine (src/engine.rs) reads its options, waits for an input or an event of the
-- swarm, and delivers events to the handler. It dials and listens by three transports in a row:
-- Tor, SOCKS and DNS (src/transports). An onion service is created over the control connection of
-- Tor (src/tor), and the Tor transport learns of it by a channel. The terminal program
-- (src/bin/trithemius-term) keeps the messages of each topic (src/subscriptions.rs), the tabs and
-- the input line, and draws them.
--
-- The files.
--   Base: names of the libraries, equality as an interface, texts as lists of code points, decimal
--     numbers, maps as association lists, and outcomes: a value, an error, a panic, or no end.
--   Util: src/util.rs. A multiaddress is a sequence of protocols; `multiaddr_get`, `_split` and
--     `_replace` have the source's names.
--   NetworkAddr: src/network_addr.rs. `from_str` and `as_network_string`; the formats of other
--     packages are the record `AddrFormats`, their documentation is `IsLawful`.
--   Subscriptions: src/subscriptions.rs. The circular queue is the record `CircularQueue`.
--   TopicList: `SubscriptionList` of src/bin/trithemius-term/ui.rs. A subtraction of an index below
--     0 is a panic, as in a debug build.
--   InputLine: the input of `UI` and its edits. `none` is a panic of a `Vec` operation.
--   Wrap: `split_each` and `ui_input_cursor` of the same file. The width of a character is a
--     parameter, and the casts to `u16` are written out.
--   View: the other fields of `UI` that change: scrolling, numbers of users, the log.
--   Ui: `UI` as a whole, whose methods change its state and the engine's (`Action`). Topics and
--     Network have the methods, Commands `handle_command`, Keys `handle_input_event`; InSync says
--     what the tabs, the messages and gossipsub have in common. What other packages parse and
--     print, the connections and the clock are the record `World`; what gossipsub documents of its
--     topics is the record `Gossipsub`. Drawing has `UI::draw`, whose result is the widgets in the
--     order in which they are rendered; the layout is the record `Display`.
--   Terminal: src/bin/trithemius-term/main.rs. Handler is `MyHandler`, Events what it does about
--     each event, Startup how it begins, Program the loop of `Engine::run` with it.
--   Transports: src/transports. Socks5 and Tor have the source's operations on an explicit state;
--     Create sets them up; the TCP transport below Tor is the record `Inbound`.
--   Control: src/tor. The stream is a list of lines and faults that are still to come, and a
--     connection is that list and what was written. The two regular expressions are functions on
--     a line.
--   Engine: src/engine.rs, src/engine_event.rs and the options of src/cli.rs. Run is the turn of
--     the loop, Ops the calls that pass on to the swarm and the onion service, Conversions the
--     events of the libraries as events of the engine. The swarm and the handler are records of
--     operations on states of their own. The channel for onion services has
--     room for one; what waits on it is the swarm's, which owns the transport that takes it.
--
-- Fuel. Only the delivery of queued events has fuel, since a handler may queue more. For a handler
-- that does not, as the one of the terminal program, one step more than the queue is long is enough.
-- The loop of `Engine::run` runs over the list of what arrives. All other loops run over a list.
--
-- Not modelled: the set-up of libp2p's behaviours, sockets and tasks, and how a widget is rendered.
-- Messages of the package log are left out.
pub mod Base
pub mod Util
pub mod Ui
pub mod Terminal
pub mod View
pub mod NetworkAddr
pub mod Transports
pub mod Control
pub mod Engine
pub mod Subscriptions
pub mod TopicList
pub mod InputLine
pub mod Wrap
