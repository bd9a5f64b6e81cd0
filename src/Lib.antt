-- ===== src/Lib.antt =====
-- MAVLink Router: a verification library for the router's core.
--
-- The router reads MAVLink packets from serial lines, UDP and TCP sockets and writes each to the
-- endpoints that it is meant for. An endpoint reads and frames packets (src/endpoint.cpp, `read_msg`,
-- called in a loop by `handle_read`), drops duplicates (src/dedup.cpp) and what its incoming filters
-- discard, learns the address of the sender, and hands the message to the main loop (src/mainloop.cpp,
-- `route_msg`). This asks every endpoint by `accept_msg` what to do with it: send it, cache it to be sent
-- later, or leave it. A message that is sent goes through the transmit buffer of the endpoint
-- (`write_msg` and `flush_pending_msgs` of each kind); a cached one goes out when a timer fires.
--
-- The parts, and the files that model them:
--   Prelude   names of the libraries, lists and maps over native numbers, Boolean tests.
--   Os        error numbers and the results of system calls.
--   Message   src/comm.h, `struct buffer`, and a record of what is used of the MAVLink library.
--   Rx        `Endpoint::read_msg`, `_check_crc` and the loop of `handle_read`: the receive buffer as the
--             list of bytes that it holds, with the statistics. Rx/Bounds has its invariant, Rx/Frames a
--             description of packets that does not look at the parser, Rx/Deliver to Rx/Session what the
--             parser does with a stream of them, Rx/Halts is about the end of the loop, Rx/Sequence about the count
--             of lost packets.
--   Dedup     `DedupImpl` and `Dedup`: the queue of times and hashes, and the set of hashes.
--   Filter    the lists of allowed and blocked ids, components and systems.
--   Accept    `Endpoint::accept_msg` with the address table; Accept/Target is about routing targets,
--             Accept/Verdict about all results.
--   Groups    `_add_sys_comp_id`, which hands a new address on to the members of the endpoint's group.
--             The endpoints stand in a store by number; the groups are a function on numbers.
--             Groups/Link is about how the groups are made.
--   Throttle  `_message_throttle_map`: which messages come too early.
--   Cache     the cache of messages that must not be lost to throttling, and their resending.
--   Tx        `write_msg`, `flush_pending_msgs` and `handle_canwrite` of the UART, UDP and TCP endpoints.
--   Router    `Mainloop::write_msg`, `route_msg`, `process_tcp_hangups` and `_reschedule_resend`, and the
--             `accept_msg` of UDP and TCP.
--   Handle    the body of the loop of `handle_read`: from a message that was read to its routing.
--             Router/Resend models `_resend_timeout`, and the runs in which messages are cached and resent.
--   Timers    the timers of the main loop.
--   Events    `Mainloop::loop`: the batches of events that epoll reports, on the endpoints and timers that
--             exist. What the handlers do to these lists is an input, described by the code of their other
--             models. Events/Owners, Events/Exists, Events/Steady, Events/Steps and Events/Hangups have an
--             invariant of the timers and what each step does to it, Events/Safe is about all of a run.
--   Commands  `handle_command_pipe`: Commands/Pipe has the commands, Commands/Links and
--             Commands/Names are about groups and names, Commands/Invariant, Commands/Removal and
--             Commands/Kept about all of them.
--   Setup     `setup` of the UART, UDP and TCP endpoints: Setup/Rates and Setup/Outcome are about what an endpoint
--             has of its configuration, Setup/Baud about the search for a baud rate.
--   Start     `Mainloop::add_endpoints`: Start/Linked is about the endpoints and their groups, Start/Logs about the
--             logs and all of it.
--   Cli       src/main.cpp, `parse_argv`; Cli/Address is about IP addresses, as src/endpoint.cpp checks them,
--             Cli/Asked about what a command line asks for, Cli/Words and Cli/Valid about what is added for it,
--             and Cli/Colon about the address in a word.
--   Text      functions of the C library and src/common/util.h on text.
--   Conf      src/common/conf_file.cpp: the parser of configuration files. Conf/Lookup has its lookups,
--             Conf/Spec a meaning of files as lists of statements, with the parser's functions for a
--             single line but not its loops, Conf/Refine and
--             Conf/Meaning that the parser implements it, Conf/Configs and Conf/Invariant the
--             invariant of its lists, Conf/Print and Conf/RoundTrip what becomes of a file that is printed.
--             Conf/Options models `extract_options` and `get_sections`, Conf/Values the functions that read a
--             value.
--   Log       src/logendpoint.cpp: a log with its timers. Log/Invariant and Log/Arming are about its start and stop,
--             for any kind of log behind an interface of `start` and `stop`; Log/Deletion models
--             `_delete_old_logs`.
--   Ulog      src/ulog.cpp: the log in ULog format, with the bytes that are valid in its two buffers.
--             Ulog/Flush, Ulog/Halts, Ulog/Valid, Ulog/Bounds and Ulog/Stream are about its parts, Ulog/Write
--             models `write_msg`, and Ulog/Timers and Ulog/Sound are about all of it.
--   Binlog    src/binlog.cpp: the log in blocks, with the messages that it sends.
--   Autolog   src/autolog.cpp, which chooses one of the two, and src/tlog.cpp, which logs every message.
--
-- Conventions. A `uint8_t` to `uint64_t` is a natural number with its wrap-around written out where the
-- code counts. What the system returns, and what the clock says, are inputs of the operations: a call
-- that writes takes a `Ret`, and `route_msg` takes the answers for each endpoint by its place. The steady
-- clock counts nanoseconds. A hash, the float of a rate, the MAVLink library and the link that the cache
-- writes to are parameters.
--
-- Fuel. The loop of `handle_read` runs on fuel: one round for each byte that the receive buffer holds and
-- one are enough, or one for each packet and one. `_add_sys_comp_id` takes fuel for the depth of its calls:
-- one for each endpoint and one are enough.
-- The calls of `get_sections` take one for each section and one. `_logging_flush` of the ULog consumes the list
-- of what `write` returns: one for each byte that waits is enough. The loop of refusals in src/binlog.cpp
-- takes the number of the block, and the loop in `ULog::stop` as many turns as there are results of `write`,
-- and one: without a result left it would wait for the file. All other loops are by recursion on a list.
--
-- Not modelled: the opening of devices, sockets, files and directories, the reading of the configuration
-- directory, most utilities and diagnostics. Of `add_endpoints`, the id of the sniffer, the TCP server, the
-- pipe and the timer for statistics are left out. The messages that the logs send are a list in Binlog and
-- left out in Ulog. The MAVLink library is a submodule, of which the repository has no source.
mod Prelude
pub mod Os
pub mod Message
pub mod Dedup
pub mod Rx
pub mod Throttle
pub mod Filter
pub mod Accept
pub mod Cache
pub mod Tx
pub mod Router
pub mod Groups
pub mod Timers
pub mod Handle
pub mod Text
pub mod Conf
pub mod Log
pub mod Ulog
pub mod Binlog
pub mod Autolog
pub mod Events
pub mod Commands
pub mod Cli
pub mod Setup
pub mod Start
