-- ===== src/Lib.antt =====
-- The Validated Patterns operator, modelled from its Go sources.
--
-- The operator reconciles one resource, the Pattern. A pass (Reconcile) reads the pattern, makes sure
-- of the operator's ConfigMap and of the finalizer, fills in defaults from the cluster, installs the
-- GitOps operator through an OLM subscription, sets up Argo CD, clones and validates the repository of
-- the pattern, and creates or updates the Argo CD Application that deploys it. A pattern that is being
-- deleted goes through the phases of finalizeObject instead, one step in each pass. An admission
-- webhook guards the resource.
--
-- Files, with the source of each (paths from the repository's root):
--   Api, Api/Webhook        api/v1alpha1/pattern_types.go and pattern_webhook.go
--   Reconcile, Stages       internal/controller/pattern_controller.go: Reconcile; actionPerformed;
--   Stages/Subscribe,       reconcileGitOpsSubscription,
--   Stages/Infra and Target reconcileArgoInfra and reconcileApplication
--   Gitea, Checkout,        the same file: createGiteaInstance; getLocalGit and preValidation;
--   Details, Clusters,      updatePatternCRDetails; applyDefaults and detectArgoNamespace;
--   Spokes, Finalize,       checkSpokeApplicationsGone; finalizeObject and what it calls;
--   Enqueue                 enqueuePatternForOperatorConfigMap
--   Argo and its children,  internal/controller/argo.go: the data, comparison, parameters, value files
--   Applications            and construction of Applications; the requests about them
--   Values                  internal/controller/values.go
--   Kube/Owner, Bootstrap   internal/controller/kube.go and utils.go: ownership; namespaces, the trusted
--                           bundle, secrets, the console link (argo.go)
--   Conditions, GitUrl      internal/controller/utils.go: conditions of the status; git URLs
--   Config, Subscriptions,  internal/controller/patterns_operator_config.go; subscription.go and
--   Acm, Git, Analytics,    operatorgroup.go; acm.go; checkout.go; analytics.go;
--   Defaults                defaults.go
--   ArgoCd and its          internal/controller/argo.go: newArgoCD, the overlay and createOrUpdateArgoCD
--   children
--   Workloads, Console      internal/controller/console: catalog.go and plugin.go
--   Certificates, Watch,    internal/controller/utils.go: writeConfigMapKeyToFile and getHTTPSTransport;
--   Gitea/Migrate           pattern_controller.go: startArgoCDWatch; gitea-util.go
--   Startup                 cmd/main.go, and SetupWithManager of pattern_controller.go
--   Wiring                  the parts above put together as Reconcile calls them
--   Library, Services       third-party functions, and parts of the operator that a pass only calls
--   Cluster, Cluster/Runs   requests, programs that send them, and their runs
--   Prelude, Errors,        shared helpers, Go's errors, panics and the file system
--   Panics, Files
--   Examples                the theorems at concrete arguments
--
-- State and requests. A handler is a program of the type Prog: it returns, fails with an error, panics
-- or sends a request (to the API server, to git, to the file system or to a service) and goes on with
-- the reply. What replies is any environment with a state of its own, so that a theorem about all
-- runs covers every change of the cluster between two requests. A theorem that relies on something of
-- the replies says so by a predicate on them. What a Go function changes through a pointer, the model
-- returns. Log output is left out. Times are numbers, in seconds or, for analytics, in minutes.
--
-- Loops are recursion on lists or on the number of attempts that are left; no definition runs on fuel.
-- Go maps are association lists. The version in the status and the bits of the analytics are natural
-- numbers without overflow: the first is counted up once in a pass, of the second four bits are used.
--
-- Of third-party types the fields that the operator sets or reads are modelled, and of the policies of
-- an Application and the configuration of a subscription also those that its comparisons leave out; a
-- field that it neither sets nor reads there is the text of its YAML.
--
-- Not modelled: the reading of flags, the printing of versions and logs, and generated code.
-- Third-party code (Kubernetes clients and controller-runtime, Helm, go-git, the Gitea SDK, mergo,
-- YAML, base64, URL parsing, semantic versions) is a parameter or a request. Resource versions are not
-- part of a pattern: which writes the API server refuses as a conflict is up to the environment.
mod Prelude
pub mod Errors
pub mod Files
pub mod Library
pub mod Panics
pub mod Values
pub mod Defaults
pub mod Api
pub mod Kube
pub mod Argo
pub mod ArgoCd
pub mod Subscription
pub mod Workloads
pub mod Cluster
pub mod Applications
pub mod Acm
pub mod GitUrl
pub mod Clusters
pub mod Spokes
pub mod Finalize
pub mod Conditions
pub mod Config
pub mod Subscriptions
pub mod Bootstrap
pub mod Services
pub mod Console
pub mod Certificates
pub mod Stages
pub mod Gitea
pub mod Checkout
pub mod Details
pub mod Enqueue
pub mod Watch
pub mod Git
pub mod Analytics
pub mod Reconcile
pub mod Wiring
pub mod Startup
mod Examples
