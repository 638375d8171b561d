-- ===== src/Unmarshal.antt =====
-- Unmarshal (unmarshal.go): the decoding of query results into Go values by reflection.
pub mod Types
pub mod GoValues
pub mod Numbers
pub mod Columns
pub mod Select
pub mod Rows
pub mod Typing
pub mod Decoders
pub mod Choices
pub mod Safety
pub mod RowSafety
pub mod Plain
pub mod Targets
pub mod Soundness
pub mod Total
pub mod Order
pub mod Panics
pub mod Digits
pub mod Maps
pub mod Messages
