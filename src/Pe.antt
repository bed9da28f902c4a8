-- ===== src/Pe.antt =====
-- upx-killer-engine/Core/PE and upx-killer-engine/Application/PE: the part for PE images.
pub mod Format
mod Tests
pub mod Capabilities
pub mod Plan
pub mod Headers
pub mod Directories
pub mod Metadata
pub mod Parser
pub mod Relocations
pub mod Rebasing
pub mod Imports
pub mod Sections
pub mod Staging
pub mod Discovery
pub mod Jobs
pub mod Samples
