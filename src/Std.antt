-- ===== src/Std.antt =====
-- What the program uses of Go's standard library: byte strings, maps, numbers and durations.
pub mod Str
pub mod Dict
pub mod Num
pub mod Utf8
