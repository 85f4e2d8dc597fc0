-- ===== src/Std.antt =====
-- The parts of the C++ standard library that several components use.
pub mod Order
pub mod Map
pub mod Text
pub mod Decimal
pub mod Ends
