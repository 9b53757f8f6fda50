-- ===== src/Handler.antt =====
-- internal/handler: the admission webhook.
pub mod Review
pub mod Mutate
