-- ===== src/Ghurl.antt =====
-- internal/ghurl: which GitHub URLs the proxy forwards, and the entries of its access lists.
pub mod Matchers
pub mod Target
pub mod Repair
pub mod Parse
pub mod Shape
pub mod Safety
pub mod Rule
pub mod Fallback
pub mod Accept
pub mod Spelling
mod Tests
