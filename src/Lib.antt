-- ===== src/Lib.antt =====
-- naudio, the network-audio toolkit: its buffers, its wire format and its loss recovery.
--
-- The program is a library that sends audio from one computer to others. A server frames PCM in
-- packets; a client takes them apart, puts them in order and plays them from a ring buffer. Here
-- are the parts in which its own logic lies, each a pure function of its state:
--
--   Config     include/naudio/AudioStreamConfig.hpp, TransportType.hpp: the configuration, the sizes
--              derived from it and the presets.
--   Ring       src/AudioRingBuffer.cpp: `write`, `read`, `clear` and the statistics. Ring/Copy and
--              Ring/Drain are about the copy loops, Ring/Valid is the invariant, Ring/Writes,
--              Ring/Reads and Ring/Session compare with the bounded queue of Queue.
--   Bytes      include/naudio/ByteCursor.hpp: `ByteWriter` and `ByteReader`, over lists of bytes.
--   Crc        src/Crc32.cpp: the table-driven CRC-32. Crc/Linear is about one step, Crc/Bitwise
--              about strings.
--   Packet     src/AudioPacket.cpp: `serialize` and `deserialize`.
--   Reorder    src/PacketReorderBuffer.cpp: `insertAt`, `checkTimeoutAt`, `drainConsecutive` and
--              `forceFlush`. `std::map` is the sorted association list of Assoc.
--   Control    src/ControlMessage.cpp: the messages in the payload of a CONTROL packet. Control/Envelope
--              is about the type code, Control/Fields and Control/AudioConfig about the fields.
--   Texts      src/ControlMessage.cpp: the messages that carry a text, in Texts/Reasons, and the answer
--              of a discovery, in Texts/Replies.
--   Roster     src/ControlMessage.cpp: `ClientInfo` and CLIENTS_UPDATE; Roster/Identity is about the bytes of
--              an info.
--   Requests   src/ControlMessage.cpp: the connect request, in its version 1 and version 1.2 forms;
--              Requests/Walk and Requests/Answers are about its
--              parsers.
--   Reliability  src/ControlReliability.cpp: critical control packets are pending until they are
--              acknowledged. Reliability/Tracked and Reliability/Calls are the invariant,
--              Reliability/Budget and Reliability/Acks bound the retransmissions,
--              Reliability/Recorded is about what is pending after a send.
--   Fec        src/FecEncoder.cpp: Fec/Recover is about the exclusive or, which the decoder uses as well,
--              Fec/Block and Fec/Parity about the packets of a block.
--   Decoder    src/FecDecoder.cpp: the pending packets, the hold and `noteSequenceAndDetectGap`;
--              `handleParity` is Decoder/Parity, `process`, `checkTimeoutAt` and `reset` are
--              Decoder/Process. Decoder/Bounded, Decoder/Refiled, Decoder/Resolved, Decoder/Calls are the
--              invariant, Decoder/Trace and Decoder/Sorting what a release emits, Decoder/Live the
--              stream without loss, Decoder/Slots to Decoder/Repair a block with one loss, and
--              Decoder/Header and Decoder/Roundtrip join the encoder and the decoder.
--   Mixer      src/net/AudioMixer.cpp: the transmit channel of the server. Mixer/Ownership is about one
--              submission, Mixer/Isolation about any run of calls. Its buffer is a Ring.
--   Broadcast  src/net/AudioBroadcaster.cpp: the fan-out of a buffer in frames, and Broadcast/Frames.
--              A target is a parameter: it may answer each of its calls in its own way.
--   Connection  src/net/UdpClientConnection.cpp, include/naudio/net/UdpClientConnection.hpp: the queue and
--              the sends; Connection/Setup is the constructor, Connection/Pipeline the way through Reorder
--              and Decoder into the queue, Connection/Receive the receive path with Reliability.
--              Connection/Sound, Connection/Sends and Connection/Calls are the invariant,
--              Connection/Chunks and Connection/Delivery the audio that the peer reads, Connection/Silent
--              and Connection/Closed a closed connection, Connection/Corrupt datagrams that are no
--              packets, Connection/Tracking the counts of lost packets, Connection/Acknowledged a
--              critical packet and its acknowledgement at both ends.
--   Prelude    lists, tests, integers and machine words that the parts share.
--   Examples   runs at concrete values.
--
-- Bytes are numbers below 256. A signed field of the wire is kept as its bit pattern; the arithmetic
-- of `size_t` in the ring buffer wraps as in the code. The counters of events, which are 64 bits wide
-- or, for the overruns and underruns of the ring buffer and the CRC errors of the connection, 32, and
-- the times do not wrap here, nor do the sequence numbers of the reorder buffer, which the code
-- widens to 64 bits.
-- A call that takes the lock for its whole run is one function; the wait inside
-- `AudioRingBuffer::read` is a schedule, which says at each test of the deadline whether it has
-- passed and what the other threads do next. The emitters of the reorder buffer and of the FEC
-- decoder are traces of their calls. The clock is an argument. The
-- emitters of a connection act behind the call of the reorder buffer or the decoder that makes them:
-- they do not call back. Its socket is a parameter: a function says which datagrams it takes, and a
-- value what a read yields.
--
-- The loops run on fuel where they are not structural: the copy loops of the ring buffer have a
-- round for each byte, which is enough since a round copies one at least; the drain of the reorder
-- buffer has one for each packet that waits, since a round takes one out; the framing of a buffer has
-- one for each byte and one more, and so has `sendAudioChunked`.
--
-- Not modelled: sockets, devices, threads and the C interface, which only call the operating system
-- or wrap the classes; the jitter estimator and the rates of the ring buffer, which compute with
-- floating-point numbers; the sessions above the parts named here.
pub mod Prelude
pub mod Assoc
pub mod Broadcast
pub mod Bytes
pub mod Config
pub mod Connection
pub mod Control
pub mod Crc
pub mod Decoder
pub mod Examples
pub mod Fec
pub mod Mixer
pub mod Packet
pub mod Queue
pub mod Reliability
pub mod Reorder
pub mod Requests
pub mod Ring
pub mod Roster
pub mod Texts
