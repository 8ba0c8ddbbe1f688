-- ===== src/Metadata.antt =====
-- src/metadata_manager.cpp and src/include/metadata_manager.h: the record that the worker keeps of
-- each task's session and of the files it wrote.
--
--   Names         the spelling of the enumerations
--   Defs          the records, the audit logs, files by name
--   Checksum      the hash of a file, read in blocks
--   Files         new files, completed files, checks of one file and of all
--   Sessions      sessions begin, grow, are saved and end
--   Views         a session as a map from filenames, and each write of it as a step of the map
--   Verdicts      what a check finds, described by the file system's answers
--   Checks        the check of a file as a step of the map
--   Completions   a completed file, and a segment behind its save
--   Certified     the entry of a segment behind its save, described by the file system's answers
--   Catalogue     the calls of the manager against the map
--   Steps         what every write of a check keeps, the checks keep
--   Filenames     names stay distinct
--   FullCheck     the check of all files
--   Totals        the sum of the sizes
--   Kept          the bounds of the logs, over any calls
--   Json          the fields that are written and read
--   RoundTrip     what a reader of a written session gets
--   Trees         a JSON library that can be run
--   Samples       a disk and a session for tests
pub mod Names
pub mod Defs
pub mod Checksum
pub mod Files
pub mod Sessions
pub mod Views
pub mod Verdicts
pub mod Checks
pub mod Completions
pub mod Certified
pub mod Catalogue
pub mod Steps
pub mod Filenames
pub mod Kept
pub mod Json
pub mod RoundTrip
pub mod Totals
pub mod FullCheck
pub mod Samples
mod Trees
mod Tests
