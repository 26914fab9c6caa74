-- ===== src/Diff/Proto.antt =====
-- packages/guardian_diff/proto.py: the walker of two protobuf descriptor sets.
pub mod Descriptors
pub mod Message
pub mod Service
pub mod Walk
pub mod Index
pub mod Silent
pub mod SilentService
pub mod Same
pub mod Covered
