-- ===== src/Recorder.antt =====
-- recorder/: the view of the decisions that is made from the events, and the verifier of a bundle.
pub mod Decisions
pub mod Bundle
pub mod Streams
pub mod Blobs
pub mod Verify
pub mod Phases
pub mod Verdict
pub mod Complete
pub mod Steps
pub mod Binding
