-- ===== src/Lib.antt =====
-- libmedia_transfer_protocol, a C++ library that carries audio and video over HTTP, RTP, WebRTC and
-- GB28181: a verification library for the parts that take protocols apart and put them together.
--
-- The parts and how they interact. A TcpServer keeps the connections of its sockets, and runs on
-- one thread the tasks that the connections post: to send, to close, and to destroy them.
-- HttpServer is such a server's client: it hands the bytes that a connection receives, in a fresh
-- MsgBuffer for each, to the HttpContext of the connection, whose HttpParser takes requests and
-- bodies off the buffer and into Packets; the application posts answers on the same HttpContext,
-- which sends them part by part as the connection reports that it is done. A GB28181 camera sends
-- RTP packets over TCP, each behind its length, and Gb28181Session puts them together from the
-- segments; what the packets carry is an MPEG program stream, out of which MpegDecoder takes the
-- frames. RtspSession takes the packets that an RTSP server sends, each in a frame, off its
-- connection, and between them the answers to its requests, by which it asks for the description of
-- a stream, then for each of its tracks, and then for their packets. FlvContext sends frames of
-- video and audio to an HTTP client as an FLV stream. A WebRTC peer sends STUN, DTLS, RTP and RTCP
-- to one UDP port, where RtcServer tells them apart, and Stun decodes the binding request and
-- encodes the response; before that, RtcSdp takes the offer of the peer and prints the answer. All
-- numbers on the wire go through ByteReader and ByteWriter.
--
-- Which file models which part, with the names of the source in snake_case:
--   ByteIo          rtp_rtcp/byte_io.h: ReadBigEndian and WriteBigEndian at any width
--   Http.Search     std::search and the line ends of libhttp/http_parser.cpp
--   Http.Text       what libhttp uses of the C++ library on texts; Trim of libhttp/http_utils.h
--   Http.Url        UrlEncode, UrlDecode, NeedUrlDecoding of libhttp/http_utils.cpp
--   Http.MsgBuffer  libhttp/msg_buffer.h and .cpp; a buffer is its vector and its two indexes
--   Http.Packet     libhttp/packet.h and .cpp; a packet is its block and its sizes
--   Http.Request    libhttp/http_request.h and .cpp; an unordered_map is an association list
--   Http.Message    MakeHeaders, AppendToBuffer and the ready-made responses of
--                   libhttp/http_request.cpp; ParseStatusMessage of libhttp/http_utils.cpp
--   Http.Parser     libhttp/http_parser.h and .cpp: the record, the bodies and ClearFor*; its child
--                   Headers holds ParseHeaders and ProcessMethodLine, Dispatch the switch of Parse
--   Http.Context    libhttp/http_context.h and .cpp: Parse, the posts and WriteComplete; what goes to
--                   the connection and the signals is the list of events that a call leaves
--   Http.Server     libhttp/http_server.cpp, as a client of Network, with the events of Http.Context
--                   as the calls that it makes of the connection
--   Network         libnetwork/connection.h and .cpp, libnetwork/tcp_server.h and .cpp; its child
--                   Steps holds what the sockets and the application do, as a relation of steps
--   Gb28181         OnRead of libgb28181/gb28181_session.cpp; IsRtpPacket of rtp_rtcp/rtp_util.cpp
--   Rtsp            OnRead of librtsp/rtsp_session.cpp up to the texts, a round of its loop being a
--                   function of the bytes left; IsRtcpPacket of rtp_rtcp/rtp_util.cpp; Frames
--                   describes the frames and their signals by itself
--   Rtsp.Requests   the requests of librtsp/rtsp_session.cpp, BuildAuthorization, and Play up to the
--                   connection
--   Rtsp.Answers    the same file: HandlerContentType, HandlerSession, and what OnRead does with texts;
--                   Lines describes the text of a description by itself
--   Rtsp.Messages   the whole of OnRead, its packets and then its text
--   Mpeg            libmpeg/mpeg_decoder.h and .cpp: parse, a round of its loop being a function of the
--                   bytes left; Packets describes a program stream by itself
--   Flv             libflv/cflv_context.h and .cpp: Writer, WriteFlvTag, WriteConfigPacket and the two
--                   kinds of frames; its child Header holds SendFlvHeader and the constructor, Reader
--                   describes how FLV is read by itself
--   Stun            librtc/stun.h and .cpp: Decode, Encode, LocalUFrag and the setters
--   RtcSdp          librtc/rtc_sdp.h and .cpp: Decode; its child Encode holds Encode, Codecs the lines
--                   on codecs that it always writes, Setters the setters; StartsWith and EndsWith of
--                   string_utils.cpp, the names of digests of librtc/dtls_certs.cpp
--   RtcServer       OnRecvPacket of librtc/rtc_server.cpp and the four tests it makes
--   Common          shared names and lemmas: Boolean tests, lists over the native numbers, options,
--                   signed integers, tables
--   Examples        the definitions on concrete inputs
-- The other modules below a part hold lemmas about it, and are named for what they are about.
--
-- Conventions. A byte is a number below 256 where a statement says so; memory is the list of its
-- bytes. `none` is what the source leaves undefined: a read or a copy outside a block, a copy by
-- std::copy onto a range that it reads from later, the use of a packet that is not there, a chunk
-- whose length with its line end is beyond the largest int32_t, an exception that nobody catches.
-- size_t and uint32_t differences wrap around, sums of sizes do not. Signed fields are otherwise
-- integers without bounds, converted to int32_t where the source converts. Logging is left out.
--
-- Parameters stand for code that is not in the repository, or that is a copy of another library:
-- `split` for rtc::split, `tokenize` for rtc::tokenize, `md5` for the digest of a request, `left`
-- for what std::remove_if leaves behind what it keeps, `hmac` and `crc32` for OpenSSL and the RTC
-- base library, `payload_type` for RtpPacketReceived::Parse with PayloadType, the record RtpParsers
-- for it and for CommonHeader::Parse, `find_nalu_indices` for webrtc::H264::FindNaluIndices, the
-- record Amf for the writers of libflv/amf0.c. Hypotheses on them are those of their documents: a
-- digest has twenty bytes, that of a request no quote, and rtc::split takes a text apart where the
-- byte stands.
--
-- Bounds and fuel. `append_within` bounds how often Append and EnsureWritableBytes call one
-- another: a buffer that EnsureWritableBytes has just made has room, so the fuel that `append`
-- gives is enough for every valid buffer. The loop of Stun::Decode takes at least four bytes a
-- round, and has fuel for one byte a round. The loops of HttpContext::Parse and
-- Gb28181Session::OnRead need not end, so their fuel is an argument, and running out of it is a
-- result of its own; it is enough for frames of a positive length where it exceeds the length of
-- the stream. A round of the loop of MpegDecoder::parse takes six bytes at least, and its fuel is
-- the number of the bytes. A round of the loop of RtspSession::OnRead takes a byte at least or
-- leaves all as it was, and its fuel is one more than the number of the bytes; each OnRead on
-- frames as its theorem has them ends within it.
--
-- Not modelled: the sockets themselves, the servers of UDP and of GB28181, Connect and the resolver
-- of names of librtsp (calls of other libraries), DTLS and SRTP (calls of OpenSSL and libsrtp), the
-- parts of rtp_rtcp, congestion_controller, pacing, remote_bitrate_estimator and sctp that are
-- copies of another project's library, libflv/amf0.c, which is such a copy too, and libsip, a
-- message loop over a SIP library. rtp_rtcp/byte_io.h is also such a copy: it is there because the
-- other parts read and write through it, and nothing is claimed of it.
pub mod ByteIo
pub mod Common
pub mod Examples
pub mod Flv
pub mod Gb28181
pub mod Http
pub mod Mpeg
pub mod Network
pub mod RtcSdp
pub mod RtcServer
pub mod Rtsp
pub mod Stun
