-- ===== src/Git.antt =====
-- Git: authentication, and the revisions of a repository (internal/controller/checkout.go).
pub mod Auth
pub mod Repository
pub mod Remote
pub mod Resolves
pub mod Checkouts
pub mod Clones
