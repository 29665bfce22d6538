-- ===== src/Wiring/InClusterGit.antt =====
-- The set-up of the in-cluster Gitea with the migration of the repository
-- (internal/controller/pattern_controller.go, createGiteaInstance; gitea-util.go, MigrateGiteaRepo).
use patterns_operator.Library.{Library}
use patterns_operator.Config.{Config}
use patterns_operator.Services.{Services}
