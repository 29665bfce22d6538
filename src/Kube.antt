-- ===== src/Kube.antt =====
-- Helpers over Kubernetes objects (internal/controller/kube.go).
pub mod Owner
