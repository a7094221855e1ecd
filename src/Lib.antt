-- ===== src/Lib.antt =====
-- Verification of Chitanda, a proxy transport written in Go. A client carries TCP streams, UDP
-- packets and ICMP echoes to a server over HTTP/1, HTTP/2, HTTP/3, raw TLS streams or plain UDP.
-- A request is signed with a pre-shared key (pkg/auth), its bytes travel in the frames of
-- internal/frame or in the packets of internal/plainudp, and the server bounds what it spends on
-- UDP targets and echoes. The modules are independent of each other but for Base,
-- Io, Crypto and Address, as the Go packages are; Auth.ReplayCache takes the clock skew of
-- Auth.Signature, and Rawstream the joining of chunks from Frame.Wire.
--
-- Base: shared names, lists, binary digits (Base.Bits) and encoding/binary (Base.Bytes).
-- Io: io.Reader, io.Writer and io.ReadFull. A reader is the list of what its Reads have to give, a
--   writer the list of the answers of its next Writes; both can fail at any point.
-- Frame: internal/frame. Frame.Header is encodeHeader, ReadHeader and ReadPayload; Frame.Transfer
--   is writeFull, WriteFrame, CopyAsDataFrames and CopyAsDataFramesAndClose; Frame.StreamWriter is
--   Write and CloseWrite of writer.go; Frame.StreamReader is Read of reader.go; Frame.Datagram is
--   EncodeDatagram, DecodeDatagram and DatagramCache; Frame.Replay is ReplayWindow. Frame.Wire
--   describes a connection of frames without the code.
-- Icmp: internal/icmpmsg/icmp.go. Icmp.Checksum is Checksum and adjustChecksum; Icmp.Message is
--   BuildEchoRequest, BuildEchoReply, ParseEcho, ValidateEchoRequest, rewriteToken and
--   StripIPHeader; Icmp.Tracker is EchoTracker.
-- Auth: pkg/auth/auth.go. Auth.Signature is Signature, writeLengthPrefixed and Verify, with the MAC
--   and ParseInt as parameters; Auth.ReplayCache is Check and Accept of a cache without a file.
-- PlainUdp: internal/plainudp. PlainUdp.Packet is the keys, NewCodec and EncodePacket of plainudp.go,
--   PlainUdp.Decode is DecodePacket and DecodePacketMulti; PlainUdp.ResponseReplay is
--   ResponseReplayWindow.
-- Crypto: what the code relies on of HMAC-SHA-256 and of AEADs, as records that the models take.
-- Rawstream: internal/rawstream. Rawstream.Hello is the ClientHello of frame.go, plain and
--   polymorphic; Rawstream.Matcher is the search for the key that made one, by a list of keys or a
--   PreparedClientHelloMatcher; Rawstream.ServerHello is the ServerHello and the derived keys;
--   Rawstream.Chunk is AEADStream; Rawstream.Writer and Rawstream.Reader are FramedWriter and
--   FramedReader of stream.go, what bufio gives being what the connection gives; Rawstream.Open is
--   the 0-RTT OPEN frame.
-- Address: target addresses on the wire, with the parsers and printers of net and strconv as
--   parameters.
-- SenderQueue: chitandaPacketQueue of integration/mihomo_tunnel/chitanda_sender_queue.go, its push,
--   pop, popBatch and close; SenderQueue.Holds says which list a ring holds.
-- Server: pkg/server. Server.UdpBudget is ReserveUDPTarget and the release of its leases.
-- Client: pkg/client. Client.Prober is classifyH2Probe and one tick of h2Prober.loop.
-- Autoscaler: pkg/plugin/autoscaler/autoscaler.go, New, tryScaleUp and tryScaleDown, with the
--   answers of the pool controller as inputs.
--
-- Numbers are natural numbers; the wrap-around of a machine word is written out (`% 2 ^ 64`), or a
-- hypothesis keeps the number below it. A string is its bytes. A result is `inl error` or
-- `inr value`, or a type of its own. Times are passed in. A Go map is an association list.
--
-- Loops on fuel: clear_loop takes the count of slots, and a round clears one at least; write_loop
-- the length of the payload, and a round writes one byte at least or stops; write_chunks likewise;
-- read_loop three rounds, for a header, a frame without content and a body; copy_loop takes its
-- fuel from the caller, one for each Read, and answers `none` when it ran out, and more than the
-- Reads that the source can answer (Io.Read.weight) is enough; batch_loop takes the
-- bytes and the number of the slices, and a round takes off one of either; fold takes two rounds,
-- enough for every sum below 2 ^ 32; pop_loop, close_loop and batch_rounds take the count of the
-- packets, and a round takes one off at least.
--
-- Not modelled: mutexes, pools of buffers and goroutines: a run is a sequence of whole operations,
-- each of which holds its lock throughout in the code, but for pop and popBatch of the sender queue,
-- which let go of it between their rounds, so that what other calls do between two rounds is left
-- out; the network, net/http, TLS and
-- QUIC, which are libraries; files, so that of the replay cache the part in memory stands here;
-- the socket code of the client, the server and the integrations.
pub mod Base
pub mod Io
pub mod Frame
pub mod Icmp
pub mod Server
pub mod Client
pub mod PlainUdp
pub mod Auth
pub mod Autoscaler
pub mod Address
pub mod Crypto
pub mod Rawstream
pub mod SenderQueue
