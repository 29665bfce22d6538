-- ===== src/ArgoCd/Instance.antt =====
-- The Argo CD instance that the operator asks for (internal/controller/argo.go, newArgoCD).
use patterns_operator.Prelude.{String, true, false, none, some, List, [], ◌∷◌, join}
use patterns_operator.Files.{end}
use patterns_operator.Config.{Config}
use patterns_operator.ArgoCd.{
  SsoSpec, ResourceRequirements, VolumeMount, Volume, config_map_source, empty_dir, Container,
  ArgoCdSpec, ArgoCd, ArgoLibrary,
}
use patterns_operator.ArgoCd.Rbac.{argo_rbac}
use patterns_operator.ArgoCd.HealthChecks.{resource_health_checks}

abbrev kube_root_ca_cm : String
kube_root_ca_cm = "kube-root-ca.crt"

abbrev trusted_bundle_cm : String
trusted_bundle_cm = "trusted-ca-bundle"

abbrev ca_bundles_vol : String
ca_bundles_vol = "ca-bundles"

unfoldable pub init_volumes : List Volume
init_volumes =
    record { name = "kube-root-ca"; source = config_map_source kube_root_ca_cm none }
    ∷ record { name = trusted_bundle_cm; source = config_map_source trusted_bundle_cm (some true) }
    ∷ record { name = ca_bundles_vol; source = empty_dir }
    ∷ []

unfoldable pub init_volume_mounts : List VolumeMount
init_volume_mounts = record { name = ca_bundles_vol; mount_path = "/etc/pki/tls/certs" } ∷ []

unfoldable pub init_containers : List Container
init_containers =
    record {
      name = "fetch-ca";
      image = "registry.redhat.io/ubi9/ubi-minimal:latest";
      volume_mounts =
          record { name = "kube-root-ca"; mount_path = "/var/run/kube-root-ca" }
          ∷ record { name = trusted_bundle_cm; mount_path = "/var/run/trusted-ca" }
          ∷ record { name = ca_bundles_vol; mount_path = "/tmp/ca-bundles" }
          ∷ [];
      command =
          "bash" ∷ "-c"
          ∷ "cat /var/run/kube-root-ca/ca.crt /var/run/trusted-ca/ca-bundle.crt > /tmp/ca-bundles/ca-bundle.crt || true"
          ∷ [];
    }
    ∷ []

abbrev requirements : String → String → String → String → ResourceRequirements
requirements max_cpu max_memory cpu memory = record {
  limits = record { cpu = max_cpu; memory = max_memory };
  requests = record { cpu = cpu; memory = memory };
}

-- Lines of a YAML text.
abbrev excluded_resources : List String
excluded_resources =
    "- apiGroups:" ∷ "  - tekton.dev" ∷ "  clusters:" ∷ "  - '*'" ∷ "  kinds:" ∷ "  - TaskRun"
    ∷ "  - PipelineRun" ∷ []

abbrev pub sso_spec : SsoSpec
sso_spec = record {
  open_shift_oauth = true;
  dex_resources = requirements "500m" "256Mi" "250m" "128Mi";
  provider = "dex";
}

module _ (lib : ArgoLibrary) (config : Config) where
  unfoldable pub new_argo_cd_spec : ArgoCdSpec
  new_argo_cd_spec = record {
    application_set = record {
      resources = requirements "2" "1Gi" "250m" "512Mi";
      webhook_ingress_enabled = false;
      webhook_route_enabled = false;
    };
    controller_resources = requirements "2" "8Gi" "250m" "1Gi";
    grafana = record {
      enabled = false;
      ingress_enabled = false;
      route_enabled = false;
      resources = some (requirements "500m" "256Mi" "250m" "128Mi");
    };
    ha = record { enabled = false; resources = requirements "500m" "256Mi" "250m" "128Mi" };
    monitoring_enabled = false;
    notifications_enabled = false;
    prometheus = record {
      enabled = false;
      ingress_enabled = false;
      route_enabled = false;
      resources = none;
    };
    rbac = argo_rbac lib config;
    redis_resources = requirements "500m" "256Mi" "250m" "128Mi";
    repo = record {
      resources = requirements "1" "1Gi" "250m" "256Mi";
      init_containers = init_containers;
      volume_mounts = init_volume_mounts;
      volumes = init_volumes;
    };
    resource_exclusions = join excluded_resources "\n";
    resource_health_checks = resource_health_checks lib config;
    resource_tracking_method = "annotation";
    server = record {
      autoscale_enabled = false;
      grpc_ingress_enabled = false;
      ingress_enabled = false;
      resources = requirements "500m" "256Mi" "125m" "128Mi";
      route_enabled = true;
      route_tls = record {
        termination = "reencrypt";
        insecure_edge_termination_policy = "Redirect";
      };
      service_type = "";
    };
    sso = sso_spec;
    others = end;
  }

  unfoldable pub new_argo_cd : String → String → ArgoCd
  unfolding new_argo_cd_spec
  new_argo_cd name namespace = record {
    kind = "ArgoCD";
    api_version = "argoproj.io/v1beta1";
    name = name;
    namespace = namespace;
    annotations =
        ("notice.argocd.argoproj.io/severity", "info")
        ∷ ("notice.argocd.argoproj.io/content", "App of Apps")
        ∷ [];
    finalizers = "argoproj.io/finalizer" ∷ [];
    spec = new_argo_cd_spec;
  }
