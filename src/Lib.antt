-- ===== src/Lib.antt =====
-- ProxyChannels: a program that connects sources and sinks of bytes, and a logger that takes part of
-- its records from clients over the network. The parts, and the files that model them:
--
-- * oscar/ (Oscar): the packets of the log protocol. A TLV (tlv.h: Oscar/Tlv) holds a type, a size
--   and a value; a SNAC (snac.h: Oscar/Snac) is a header and a row of TLVs whose types proto.h
--   (Oscar/Proto) lists; a FLAP packet (flap_builder.h: Oscar/Flap, flap_parser.h and .cpp:
--   Oscar/Flap/Parser) is a header and a SNAC. Oscar/Memory has the storage that memcpy reads and
--   writes, with an error for an access outside of it. boost::endian is a parameter, the record
--   Endian of Oscar/Endian; Oscar/Endian/Swap has the one of a little-endian host.
-- * utils/ (Utils): time stamps (timestamp.cpp), log packages (logbuilder.h and .cpp), and the queue
--   of lockqueue.h.
-- * logclient/logclient.cpp (LogClient): the client that sends log packages. Its mutex makes each
--   call one step; a call returns the new state and what it starts.
-- * proxy/ (Proxy): tcpserver.h (Proxy/TcpServer) and tcpserver_child.cpp (Proxy/TcpChild, the four
--   readers in Proxy/TcpChild/Readers), terminal.cpp (Proxy/Terminal), the adaptors
--   oscar_logger_adapter.cpp (Proxy/OscarAdaptor), stream_logger_adapter.cpp (Proxy/StreamLogger),
--   etf_logger_adapter.cpp, log_adaptor.cpp and log_channel.cpp (Proxy/LogChannel), logger.cpp
--   (Proxy/Logger), sink.cpp (Proxy/Sink), thread_pool.cpp (Proxy/ThreadPool), signals.cpp
--   (Proxy/Signals), console.cpp (Proxy/Console),
--   configurator.cpp (Proxy/Configurator), actor.h (Proxy/Actor), manager.cpp, channel.cpp,
--   actor.cpp and manager_adaptor.cpp (Proxy/Manager).
-- * System puts parts together: System/LogPath is the way of a log package from the client to the
--   adaptor of the server, System/Records from there to the records of the logger, System/Files from
--   the logger to the files of its sinks; System/EtfPath is the way of an ETF client's packets. Proxy/Logger/Running is the logger with all the threads that
--   use it, as a step relation, Proxy/Logger/Ticking its timer on the pool, and
--   Proxy/ThreadPool/Workers the threads of the pool and its destructor, also as a step relation.
--
-- An actor reads bytes and hands them to the channels from it (Proxy/Manager.input_messages), which
-- hand them to the actors at their other ends; a log adaptor makes log packages of them, each of its
-- log channels gives one to the logger (Proxy/LogChannel.to_log), and the logger hands those that are
-- due to its sinks on the pool.
--
-- Base has what all share. Numbers are natural; a type of w bits cuts with % 2 ^ w where the code
-- does, signed ones are the integers of Base/Int. Bytes are numbers; that they are below 256 is a
-- hypothesis where it matters. Code that throws, and reads outside a buffer, return an error.
-- Asynchronous operations are actions that a call returns, and their completions are events.
--
-- Loops are recursion on fuel where their end is not structural: calc_tlv_count takes its fuel as an
-- argument, and Oscar/Flap/Parser/Diverge has when it is enough; the loops over a container's items,
-- over the lines of a buffer and over the due timers take the size of what they go through, of which
-- each round uses at least one; the carry of a time stamp goes round once. The attempts of the client
-- to connect take fuel, and LogClient/Session has when it is enough; so have the reads of a connection
-- (Proxy/TcpChild/Serving) in Proxy/TcpChild/Reassembly and Proxy/TcpChild/EtfReassembly.
--
-- Parameters: boost::endian, boost::algorithm (trim, to_upper, erase_all_regex), strftime and the
-- decimal forms of a sink's lines and file names (the record Format of Proxy/Sink), the numbers of
-- signals, the clock, localtime, how an attempt to connect goes, and what boost::property_tree holds at a path (Base/Settings). Not
-- modelled: reading of the XML configuration, the main programs, the stack traces, and file and socket
-- errors that the code does not look at.
pub mod Base
pub mod Oscar
pub mod Utils
pub mod Proxy
pub mod LogClient
pub mod System
pub mod Examples
