-- ===== src/Lib.antt =====
-- mqtt5: an MQTT 5 client library in C++ (include/mqtt5), modelled from its wire types up to the
-- state of a client.
--
-- The parts, and how they interact. A client (include/mqtt5/client.hpp) hands control packets to a
-- connection (connection.hpp), which writes their bytes to a stream and reads packets from it; a
-- packet is a header and a body of one of fourteen types, and most bodies hold a list of
-- properties. The client keeps the publishes, subscriptions and unsubscriptions that it has in
-- flight and the receivers that wait for messages, and a state machine calls its handlers.
--
--   * Base: Boolean tests, lists on native numbers, results, byte masks.
--   * Wire: transport/data_fetcher.hpp (Fetcher, Fetchers, Stream) and fixed_int, varlen_int, string and binary
--     of protocol/ (FixedInt, VarlenInt, Text). A reader takes the bytes of the buffer and gives its
--     value and the bytes that it leaves; a writer gives the bytes that it passes to its `writer`.
--   * Property, Properties: protocol/properties.hpp. Properties.Fields models what the
--     `properties_t` structs of all packets do: `maybe_add` calls out, a loop over properties in.
--   * Header: protocol/header.hpp. Its first byte has no initializer, so the constructor takes the
--     byte that the memory held, `indeterminate`.
--   * Packet: a module per packet of protocol/ (Publish, Puback for the four acknowledgements,
--     Subscribe, Suback for SUBACK and UNSUBACK, Unsubscribe, Disconnect, Connect, Connack), with what
--     is shared in Reason, Shared, Will and Framing. Each has a RoundTrip module.
--   * ControlPacket: protocol/control_packet.hpp and ping.hpp; Receive reads from a stream, Ends
--     holds what bytes of any kind lead to.
--   * Connection: connection.hpp, over any stream; Peers puts two ends together.
--   * TopicFilter: topic_filter.hpp.
--   * PublishOptions: publish_options.hpp.
--   * Client: client.hpp and detail/: Identifiers, Sending (publishes and their acknowledgements;
--     Session and Refines relate its vector and queue to a session of MQTT),
--     Delivering (received messages), Subscribing, Subscriber, Connecting, Publisher (publishes with
--     options), States and Machine (the transition table; Dispatch, the table at work) and History
--     (operations and events one after another). The state is a record, and what a client does outside
--     itself (packets handed to the writer, receivers called, timers, the socket) is a log of effects.
--   * Examples: the theorems at concrete inputs.
--
-- Exceptions are values of Base.Outcome's Error. A read past the end of data, which C++ leaves
-- undefined, is the error `undefined_read`, and a failed assertion is `assertion_failed`. Integers
-- are natural numbers with the wrap-around of their C++ types written out. A std::string is the
-- list of its bytes, and an enumerator is its number.
--
-- Loops over data (properties, topics, levels of a filter) run on fuel for as many rounds as there
-- are bytes, which is enough since each round takes one at least. The reads of a stream run on fuel
-- that the theorems bound by the reads that are left. `varlen_int::serialize` has fuel for 4
-- rounds, which is enough for what passes its guard.
--
-- Code that is not the library's own is a parameter. A stream (Asio) is known by `read_some` and
-- the laws of Wire.Stream.IsSource: bytes come in order, a stream ends when none are left, and a
-- stream is read in finitely many pieces. Writes to an open stream are Connection.Peers.IsSink, and
-- the flat buffer of Boost is Wire.Fetchers.FlatBuffer. A receiver is code of the user that may
-- call the client again: the handlers take `resume`, what a call of a receiver does to the client.
-- The order in which boost::sml serves the regions of the table is an argument, any list of
-- regions; what is taken from its documentation is that each region takes at most one row for an
-- event, that rows without an event are taken when the event is done with, and that an action which
-- raises an event does so at once.
--
-- Not modelled: the sender and receiver plumbing of p0443_v2, the sockets and timers
-- themselves, data_writer.hpp and the free functions of inplace_deserializer.hpp (which nothing uses),
-- samples and tests. A packet that the client sends is logged when it is handed to the
-- writer: an exception that serializing it throws there is a property of the packets, not of the
-- client's model.
pub mod Base
pub mod Wire
pub mod Property
pub mod Properties
pub mod Packet
pub mod Header
pub mod ControlPacket
pub mod Connection
pub mod TopicFilter
pub mod PublishOptions
pub mod Client
pub mod Examples
