-- ===== src/Kubernetes.antt =====
-- internal/kubernetes: workload objects, their containers, and the objects of an admission request.
pub mod Workload
pub mod Containers
pub mod Parents
pub mod Admission
