-- ===== src/Utils.antt =====
-- internal/utils: strings, lists and feature flags.
pub mod Strings
pub mod Lists
pub mod Feature
pub mod Json
pub mod Files
pub mod Logging
pub mod Validation
