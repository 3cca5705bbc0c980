-- ===== src/Json.antt =====
-- offline/include/ego_offline/json_writer.hpp in Writer, the strings of json_reader.hpp in Reader; their
-- round trip in Strings.
pub mod Writer
pub mod Reader
pub mod Strings
mod Tests
