-- ===== src/Validation.antt =====
-- internal/handler/validation: the validation of the images of a workload object.
pub mod Skip
pub mod Image
pub mod Workload
