-- ===== src/Elf.antt =====
-- upx-killer-engine/Core/ELF: the parts of the engine that know the ELF format.
pub mod Format
pub mod Classifier
pub mod Header
pub mod Parser
mod Tests
