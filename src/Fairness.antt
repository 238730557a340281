-- ===== src/Fairness.antt =====
-- The fairness package (fairness/).
pub mod Config
pub mod Classify
pub mod Scoring
pub mod Auth
pub mod Session
pub mod Identity
pub mod Pool
pub mod Address
pub mod App
pub mod Provision
pub mod Serve
pub mod Unmarshal
mod UnmarshalTests
mod ProvisionTests
mod ServeTests
mod Tests
