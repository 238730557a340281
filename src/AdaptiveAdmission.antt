-- ===== src/AdaptiveAdmission.antt =====
-- Package adaptiveadmission: capacity control, the priority queue and its dispatch loop, and what the
-- handler does around them.
pub mod Window
pub mod Controller
pub mod Queue
pub mod Config
pub mod Unmarshal
mod UnmarshalTests
pub mod Dispatch
pub mod App
pub mod Handler
mod Tests
