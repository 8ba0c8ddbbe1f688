-- ===== src/Recording.antt =====
-- src/recording_sink.cpp and src/include/recording_sink.h: what a recording does around its encoders.
--
--   NalUnits      encoded video from start codes to length prefixes, and the decoder's configuration
--   Avcc          what a reader of the length prefixes finds
--   Passthrough   the sound that is encoded beside a video that is copied
--   Written       the loop that gives the encoder its frames
--   Flushes       when the resampler is emptied
--   Heard         a whole call, with its flushes
--   Timing        the time stamps of a context's frames
--   Stamping      what one stamp leaves
--   Fitting       no stamp leaves int64_t
--   Increasing    their order
--   Sink          the queues, their workers, the user filter, limits and rotation
--   Queues        what a queue keeps
--   Files         the finished segments of a recording, handed to the metadata manager
--   Listed        what the metadata then say of each name
--   Handed        a short recording's files
mod NalUnits
mod Avcc
mod Passthrough
mod Written
mod Flushes
mod Heard
mod Timing
mod Stamping
mod Fitting
mod Increasing
mod Sink
mod Queues
mod Files
mod Listed
mod Handed
mod Tests
