-- ===== src/Handles.antt =====
-- sysheaders/common/beel/handles.h: result codes.
pub mod Handle
pub mod Pointer
pub mod Fields
mod Tests
pub mod Results
use beelzebub.Common.{ℕ, Bool, ◌==◌}

-- The `uint8_t` behind `HandleResult`.
abbrev pub HandleResult : Type 0
HandleResult = ℕ

abbrev pub okay : HandleResult
okay = 0x00

abbrev pub out_of_memory : HandleResult
out_of_memory = 0x01

abbrev pub not_found : HandleResult
not_found = 0x02

abbrev pub cardinality_violation : HandleResult
cardinality_violation = 0x04

abbrev pub object_disposed : HandleResult
object_disposed = 0x0B

abbrev pub failed : HandleResult
failed = 0x0F

abbrev pub argument_out_of_range : HandleResult
argument_out_of_range = 0x11

abbrev pub page_free : HandleResult
page_free = 0x32

abbrev pub is_okay : HandleResult → Bool
is_okay r = r == okay
