-- ===== src/Protocol.antt =====
-- upx-killer-contracts/Protocol/EngineHost: the frames between the user interface and the hosts.
pub mod Wire
pub mod Enums
pub mod Messages
pub mod Codec
mod Tests
