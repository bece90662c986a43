-- ===== src/Tests.antt =====
-- Runs of the definitions on concrete inputs, and the theorems at concrete inputs. Sets are lists,
-- floating-point numbers are thousandths, and the world is a counter.
pub mod Fixtures
pub mod Texts
pub mod Messages
pub mod Selection
pub mod Sorting
pub mod Streams
pub mod Stores
pub mod Loading
pub mod Models
pub mod Processors
pub mod Sessions
