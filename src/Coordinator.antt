-- ===== src/Coordinator.antt =====
-- The coordinator of pkg/trax/coordinator.go: one module for each part of its step processing.
pub mod Transit
pub mod Reason
pub mod Forward
pub mod Running
pub mod Backward
pub mod Initiate
pub mod Process
pub mod Result
pub mod Health
pub mod Reload
pub mod Submission
pub mod Rules
pub mod Soundness
pub mod Quiet
pub mod Course
