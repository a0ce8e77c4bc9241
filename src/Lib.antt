-- ===== src/Lib.antt =====
-- Verification of direct-link, a system that streams cameras to a director: the native side in C++ of
-- an operator, from the camera to the WHIP endpoint, over FFmpeg and GStreamer, and of a director,
-- from the LiveKit room to the pictures on the screen, over Qt.
--
-- The program's parts, and the files here that model them:
--
-- - video-core/include/common/types.hpp, result codes, frames and packets: VideoCore/Types.
-- - video-core/src/encode, the encoders: VideoCore/Encode has the state that they share and the loop
--   `while (avcodec_receive_packet(…) == 0)`; Encode/Software and Encode/Nvenc are the two classes,
--   method by method; Encode/Create is `createEncoder` with the virtual calls, and Encode/Contract
--   what a client of `Encoder` may rely on. FFmpeg is the record VideoCore/Ffmpeg, an argument of
--   every definition that calls it, with its one law: a codec holds finitely many packets.
--   VideoCore/Drain is the receive loop itself, for encoders and decoders.
-- - video-core/src/decode, the decoders: VideoCore/Decode has the decoder side of FFmpeg and what
--   the decoders share; Decode/Software and Decode/Nvdec are the two classes, Decode/Create is
--   `createDecoder` with the virtual calls; Decode/Frames is about the frames that they hand on,
--   Decode/Lifecycle about what they own.
-- - video-core/src/capture/camera_capture.cpp, the camera: VideoCore/Capture has `initialize`, `start`,
--   `stop` and the destructor; Capture/Candidates the pipelines that are tried, Capture/Probing
--   the attempts of `buildPipeline` with the references that they
--   hold; Capture/Lifecycle the calls in any order, with the end of the thread at any moment;
--   Capture/Loop one turn of the capture loop, with planes of bytes as functions of the offset.
-- - video-core/src/pipeline/video_pipeline.cpp: VideoCore/Pipeline has the calls of `VideoPipeline`,
--   which pass packets from the encoder to its client; Pipeline/Encoding has the turn of
--   `encodeLoop` with a frame; Pipeline/Threads has the capture callback, `encodeLoop` and `stop` as
--   three threads over the queue, its condition variable and the stop token, in every interleaving.
-- - networking/src/whip_publisher.cpp, the WHIP publisher: Networking/Publisher, with its life cycle
--   and the time stamps of its buffers in child modules; Publisher/Threads has `pushPacket` and
--   `stop` as two threads with `appsrcMutex_`, in turn (InTurn), apart (Apart) and at once (Races).
-- - client/src/session/camera_session.cpp: Client/CameraSession joins the pipeline and the publisher:
--   packets flow from the first to the second, keyframe requests from the second to the first.
--   CameraSession/Encoding and Sending follow frames through the encoder to the network, Keyframes
--   a request back to the encoder; StartSteps has `start` in the pool with `stop` in between; Live
--   puts the threads of the pipeline and the session together;
--   Destruction destroys the members of a session one after the other beside those threads.
-- - client/src/session/session_controller.cpp: Client/SessionController starts and stops that session
--   for the user interface, and shows its frames; SessionController/Sessions has the session
--   under its steps, and SessionController/Reached the states that they reach.
-- - client/src/directorsession.cpp, the tracks of a director: Client/DirectorSession, with the map in
--   the order of its keys, and the signals that each call emits as a list.
-- - client/src/directortransport.cpp, the connection to the room that feeds that session:
--   Client/DirectorTransport; DirectorTransport/Steps has the main thread with its queue, the
--   thread of the room and the pool thread in Connect as the steps of one state. Client/Task is
--   the QFutureWatcher that it has in common with the session controller.
-- - client/src/framereader.cpp and client/src/videotrack.cpp, from a track of the room to the pictures
--   of a sink: Client/FrameReader and Client/VideoTrack.
--   Client/Director puts the room, the tracks and their readers together.
-- - client/src/network/sessionclient.cpp, the calls of the signaling service: Client/SessionClient.
--
-- An operation of a class is a function from its state to the new state and its result; packets that
-- it hands to a callback are a list that it returns. Fields keep the names of the members, without
-- the underscore. Pointers to objects of GStreamer are Booleans, not null or null; what GStreamer
-- answers is an argument (Probe, Playing, Elements, Answers). Fields that record history and that
-- the code lacks (live_contexts, live_pipelines, taken, lost, captured, source_alive, faulted, sent)
-- say so where they stand.
--
-- `int` and `int64_t` are ℤ of Base/Int; where the code converts or wraps, so does the model, modulo
-- 2^32 or 2^64. The receive loop runs on fuel, one more than the packets that the codec holds, and
-- ends before the fuel does. `getBitrate` takes the floating-point division as an argument.
--
-- Not modelled: log lines; the entry point of the client; the signaling backend in Go, the user
-- interface in QML and the deployment files, which are in other languages. FFmpeg, GStreamer, Qt
-- and the LiveKit SDK are libraries, known by their documentation only: what they answer is an
-- argument. Planes are bytes by offset, and the products of rows and strides stay below 2^31;
-- the frame that the encoders convert into is allocated, since the code does not test that; and an
-- `int` that overflows wraps.
pub mod Base
pub mod VideoCore
pub mod Gstreamer
pub mod Networking
pub mod Client
