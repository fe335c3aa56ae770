-- ===== src/Tests.antt =====
-- The theorems at concrete inputs, and runs of the definitions. `Toy` holds small concrete
-- functions in place of the crates that are parameters.
pub mod Base64
pub mod Toy
mod Wire
mod Request
mod Verify
mod Authentic
mod Enrollment
mod KernelIdentity
mod Signing
mod Transport
mod Session
mod Network
mod Replay
mod PanicFree
mod Refuse
mod Enroll
