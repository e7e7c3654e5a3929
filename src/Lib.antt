-- ===== src/Lib.antt =====
-- sipdemo: a softphone endpoint that answers one SIP call, receives its RTP audio through a jitter
-- buffer, decodes it and its telephone events, and forwards the audio at 16 kHz to a WebSocket
-- gateway (README.md).
--
-- The parts and their files:
--   Rtp        include/sipdemo/RtpPacket.h, src/rtp/RtpPacket.cpp: `RtpPacket::parse`, `serialize`,
--              `seqLess` and `seqDiff` are `parse`, `serialize`, `seq_less` and `seq_diff`. A read of
--              the buffer that would be out of range is the outcome `fault`.
--   Jitter     include/sipdemo/JitterBuffer.h, src/jitter/JitterBuffer.cpp: `insert`, `pop`, `reset` and
--              `stats` on a record of the class's fields; `Jitter.Playout.run` is any sequence of
--              arrivals and playout ticks. The `std::map` is a list in key order.
--   Dtmf       include/sipdemo/Rfc4733.h, src/dtmf/Rfc4733.cpp: `DtmfEvent::parse`, `dtmfEventToChar`,
--              and `DtmfDecoder::feed`, whose work on a parsed event is `feed_event`.
--   Codec      src/codec/G711.cpp and src/codec/Resample.cpp: mu-law, A-law, and the linear upsampler.
--   Stats      include/sipdemo/RtpStats.h, src/stats/RtpStats.cpp: `update` in its two halves,
--              `count_packet` and `time_packet`, `expected`, `lost`, `lossFraction`, `jitterMs`.
--   Queue      include/sipdemo/BoundedQueue.h: each function is what a call does under the mutex;
--              Queue.Threads has the threads, the condition variables and the notifications as steps.
--   Sip        include/sipdemo/SipMessage.h, SipParser.h, Sdp.h, SipUas.h and src/sip/: Message (headers,
--              `serialize`), Parser (`parseSip`, `headerParam`, `parseCSeq`), Sdp (`generate`,
--              `parseSdp`, `makeAnswer`) and Uas (`makeResponse`, and `handle` by a function for each
--              part of the method in Uas/Handle).
--   Ws         include/sipdemo/WsClient.h, src/ws/WsClient.cpp: `parseWsUrl` (Url), the frames that
--              `sendFrameUnlocked` builds and `readerLoop` reads (Frame), and the reader with its pongs
--              (Client), and the handshake of `connect` (Connect). The keys, the random bytes and the
--              results of the socket calls are parameters.
--   Net        include/sipdemo/UdpSocket.h, src/net/UdpSocket.cpp: `bind`, `sendTo` and `recvFrom` on
--              what the platform calls give; Net.Ownership has the sockets of a program, and the
--              descriptors, as they are built, moved, assigned and destroyed.
--   App        src/app/main.cpp: Media is `MediaSession` (`recv_round`, `playout_round` and
--              `output_round` are one round of its three loops, `on_dtmf_digit` is the callback);
--              Media.Runs has any sequence of rounds. Main is `parseArgs` and the loop of `main`, with
--              the life of the session.
--   Generator  src/tools/rtp_sender.cpp: the command line (Args), `loadWavPcm16` (Wav) and the sending
--              loop with its loss and reordering (Send).
--   Base       Boolean tests, signed and w-bit integers, bit operations and lists; Base/Text has the
--              functions of the C and C++ standard library on strings that the sources call.
--   Tests      concrete inputs.
--
-- How they interact: App.Main receives a datagram, parses it with Sip.Parser, and gives it to `handle`
-- of Sip.Uas.Handle, which parses a body with Sip.Sdp.Parse and answers it with Sip.Sdp.Answer, and
-- tells by its media action when the media session starts and stops. The session (App.Media) connects
-- its WsClient, parses datagrams with Rtp, gives telephone events to Dtmf and audio to Jitter and
-- Stats; its playout thread moves packets from Jitter to a Queue, and its output thread takes them from
-- there, decodes them with Codec, sends the audio at 16 kHz with Ws.Client, and echoes it.
--
-- Conventions: a string is the list of its bytes, in the C locale. `uint8_t` to `uint64_t` are natural
-- numbers with each wrap written out; `int` and `long` (64 bits) are integers, as are the 64-bit
-- extended sequence numbers, whose overflow would be undefined. A `double` and its operations are a
-- parameter, and so is the random generator: `rng n` is its output at draw `n`.
-- Samples lie in memory as on a little-endian machine. The threads of a session are steps of one state,
-- so a run is a sequence of whole rounds; what two threads do at once to one object is not in it.
--
-- Fuel: the two loops of `extend` have 3 rounds each; after them neither condition holds, as the
-- bounds of Jitter.Extend say. A number has fewer digits than its successor says. The loops of the SIP
-- parser and of the WebSocket reader have the length of the text as fuel (Sip.Parser.Fuel,
-- Ws.Client.Reader), since each round takes bytes. The walk over the chunks of a WAV file has the
-- length of the file and one as fuel, which is enough where no chunk's size makes its step wrap to 0
-- (Generator.Wav.Walk). `read_exact` is what `recv` calls give in all, so its loop is not there.
--
-- Not modelled: the printed text and the statistics lines of src/app/main.cpp; interleavings inside a
-- round of its threads, other than those of the queue; the pacing, the sine tone (floating point) and
-- the printed text of src/tools/rtp_sender.cpp; the code under `#ifdef _WIN32`; `str` of `Endpoint`,
-- which only printed text uses; the Python gateway (gateway/app.py); the tests and scripts.
pub mod Base
pub mod Rtp
pub mod Jitter
pub mod Dtmf
pub mod Codec
pub mod Stats
pub mod Queue
pub mod Sip
pub mod Ws
pub mod Net
pub mod App
pub mod Generator
mod Tests
