-- ===== src/Wire.antt =====
-- Words in little-endian order and packed structs. The repository reads and writes its records by
-- `memcpy` between a byte buffer and a packed struct, on little-endian machines: a field of `n`
-- bytes at offset `off` is the word that stands there.
pub mod Words
pub mod Structs
unfoldable pub use Words.{le_bytes, le_value, IsByte}
unfoldable pub use Structs.{field, encode_fields, read_fields}
