-- ===== src/Contracts.antt =====
-- upx-killer-contracts/Core and Application/Backends: the data that the user interface, the hosts
-- and the engine exchange. Paths stand for the text that their `u8string()` gives.
pub mod Targets
pub mod Jobs
pub mod Backends
