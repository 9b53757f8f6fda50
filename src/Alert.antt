-- ===== src/Alert.antt =====
-- internal/alert: notifications about admission decisions.
pub mod Evaluation
pub mod Channel
pub mod Load
pub mod Template
