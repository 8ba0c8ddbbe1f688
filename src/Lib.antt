-- ===== src/Lib.antt =====
-- The C++ worker of RTC-Egress: what it does with the manager's commands, with the bytes of its
-- socket, and with the users of a channel.
--
-- Parts, and how they interact. A worker has one `TaskPipe` (src/task_pipe.cpp). Its thread connects
-- to the manager's socket, cuts the bytes into JSON lines (src/include/line_message_buffer.h), and
-- gives each message to the handler of its command. A handler opens the RTC connection of a channel
-- for its first task, starts or stops one of three sinks (snapshot, recording, streaming), releases
-- the connection with the channel's last task, and writes completions to the socket. The sinks call
-- the pipe back when a task ends by itself, and the RTC client calls it with SDK errors. The
-- streaming sink (src/streaming_sink.cpp) publishes over a transport (src/streaming_output.cpp), and
-- opens it again when the destination is lost; its sound comes from the audio mixer
-- (src/audio_mixer.cpp). A recording to TS files cuts them into segments
-- (src/ts_segment_manager.cpp); a recording (src/recording_sink.cpp) queues frames for its two
-- workers, stamps them, and keeps the files of its task, with sizes, checksums and an audit log, in
-- the metadata manager (src/metadata_manager.cpp). The layout detector (src/layout_detector.cpp)
-- follows the users that send frames, and the compositor (src/video_compositor.cpp) gives each a
-- region of the canvas.
--
-- Files:
--   Prelude          shared names, Boolean tests, lists over the native numbers, dictionaries, integers
--   Lines            src/include/line_message_buffer.h (`append`), and the read loop of
--                    src/task_pipe.cpp (Lines/Chunks); Lines/Scan is the reference scanner
--   Uds              src/include/uds_message.h and src/include/native_layout.h
--   Streaming        src/streaming_sink.cpp: Streaming/Sink (sessions, retries, the publishing loop and its
--                    report), Streaming/Lifecycle (initialize, start, stop, guards), Streaming/Clock
--                    (timestamps); src/streaming_output.cpp: Streaming/Url (validate) and
--                    Streaming/Output (open, write, poll, cancel, close). Streaming/Retries,
--                    Streaming/Ends, Streaming/Calls, Streaming/Opening, Streaming/Sessions and
--                    Streaming/Hosts hold theorems.
--   Segments         src/ts_segment_manager.cpp: Segments/Names (file names) and Segments/Defs
--   Metadata         src/metadata_manager.cpp and src/include/metadata_manager.h: Metadata/Defs,
--                    Metadata/Checksum, Metadata/Files and Metadata/Sessions have the records, the
--                    checks of files and the operations, Metadata/Json the fields that are written and
--                    read, Metadata/Steps all calls as one type. Metadata/Catalogue, Metadata/FullCheck,
--                    Metadata/Totals, Metadata/Kept and Metadata/RoundTrip hold theorems; Metadata/Trees
--                    is a JSON library that can be run.
--   Recording        src/recording_sink.cpp and src/include/recording_sink.h: Recording/Sink (queues,
--                    workers, limits, rotation), Recording/Timing (time stamps), Recording/Passthrough
--                    (the sound beside a copied video), Recording/NalUnits (its encoded video) and
--                    Recording/Files (the segments that are handed to the metadata manager).
--                    The other files hold theorems and tests.
--   Snapshot         src/snapshot_sink.cpp: Snapshot/Defs has the frames that come in and the three
--                    steps of the capture thread; Snapshot/Steps runs them in any order; Snapshot/Spacing
--                    holds theorems.
--   Pipe             src/task_pipe.cpp and src/include/task_pipe.h: Pipe/Defs has the state and the
--                    monad of the handlers, Pipe/Connection, Pipe/Snapshot, Pipe/Recording,
--                    Pipe/Stream and Pipe/Events the handlers, Pipe/Thread the loops of the thread.
--                    Pipe/View and Pipe/Entries give the part of the state that theorems speak of;
--                    Pipe/Starts, Pipe/Stops and Pipe/Reports the outcome of each handler; the other
--                    files use those outcomes.
--   Mixer            src/audio_mixer.cpp: Mixer/Defs has the state, push and the limiter, Mixer/Mix the
--                    sum of a block; Mixer/Push and Mixer/Peaks hold theorems.
--   Compositor       src/video_compositor.cpp: Compositor/Regions has the guard of initialize and the
--                    regions of the layouts; the other files hold theorems.
--   Layout           src/layout_detector.cpp: Layout/Defs and Layout/Detect have the operations.
--
-- How code corresponds to definitions. A method is a function of the same name in snake_case, from
-- the state before to the state after. In the pipe a handler is an action of the monad `M`; a call of
-- the client, a sink or the socket is recorded in `calls`, and its Boolean result is `answer` of all
-- calls before it, a parameter of every handler, so that each theorem holds whatever they answer.
-- The two hash maps of the pipe are association lists without repeated keys, in some order of
-- iteration; a theorem that depends on the order says so. `std::map` of the detector is such a list,
-- sorted. A clock is an argument; differences of 64-bit clocks wrap around (`sub64`). An `int` field
-- of a message is an integer. Counters of frames and of layout changes are unbounded, since 2 ^ 64 of
-- them do not occur.
--
-- The publishing thread runs in a `World`, which gives the flags of other threads, the deadline, the
-- encoders and the destination at each reading; the readings are numbered.
--
-- Fuel. The loop of writePassthroughAudioSamples gets one more than the samples that wait, and the
-- loops over encoded video the number of its bytes; each turn uses up one at least. The loop of
-- `append` gets one more than the length of its text, and each turn uses up a byte at least;
-- Lines/Refine shows that it never runs out. The publishing loop ends at the task's deadline: each
-- turn takes a reading at least, so two turns more than the reading of the deadline are enough
-- (Streaming/Ends). The other loops are structural.
--
-- Not modelled. Logging; locks (each handler is one step, as `state_mutex_` and the single reading
-- thread make it, and overlapping handlers are left out); select() and the shutdown pipe; JSON's
-- parser and printer, which are vendored (the metadata's theorems take them as a parameter); the
-- Agora SDK and FFmpeg, which are outside the repository; the fields of the sinks' configurations
-- that the pipe does not write; the compositor's frame buffer and drawing, with the float scores of
-- its grids, which are a parameter; the encoders of the recording sink, the threads of its start and
-- stop, and the snapshot's encoder; the waits of the audio mixer's drain and its resampler, and the
-- services in Go.
pub mod Prelude
pub mod Lines
pub mod Uds
pub mod Streaming
pub mod Pipe
pub mod Layout
pub mod Segments
pub mod Compositor
pub mod Mixer
pub mod Metadata
pub mod Recording
pub mod Snapshot
