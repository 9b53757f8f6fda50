-- ===== src/Tests.antt =====
-- Runs of the definitions on concrete inputs.
mod Samples
mod Utils
mod Server
mod Rules
mod Images
mod Kubernetes
mod Cosign
mod Notation
mod Notary
mod Caches
mod Validation
mod Handler
mod Admission
