-- ===== src/Console/Catalog.antt =====
-- The pattern catalog (internal/controller/console/catalog.go).
use patterns_operator.Prelude.{
  String, true, false, Option, none, some, List, [], ◌∷◌, ◌==◌, lookup, join, if◌then◌else◌,
}
use patterns_operator.Config.{Config}
use patterns_operator.Defaults.{Env}
use patterns_operator.Workloads.{
  Labels, ConfigMapObject, ServiceObject, Container, secret_volume, config_map_volume, PodTemplate,
  DeploymentObject, config_map_kind, service_kind, deployment_kind,
}
use patterns_operator.Cluster.{Prog, ◌>>=◌, ◌>>◌}
use patterns_operator.Console.{get_deployment_namespace, create_or_update}

abbrev pub catalog_name : String
catalog_name = "patterns-operator-pattern-ui-catalog"

abbrev cert_secret_name : String
cert_secret_name = "patterns-operator-pattern-ui-catalog-cert"

abbrev pub default_image : String
default_image = "quay.io/validatedpatterns/pattern-ui-catalog:stable-v1"

abbrev image_or_default : Option String → String
image_or_default none = default_image
image_or_default (some image) = if image == "" then default_image else image

unfoldable pub get_catalog_image : Option Config → String
get_catalog_image none = default_image
get_catalog_image (some m) = image_or_default (lookup "catalog.image" m)

abbrev pub catalog_labels : Labels
catalog_labels = ("app.kubernetes.io/component", catalog_name) ∷ []

-- Lines of the configuration of nginx.
abbrev nginx_lines : List String
nginx_lines =
    "error_log /dev/stdout info;" ∷ "events {}" ∷ "http {" ∷ "  access_log         /dev/stdout;"
    ∷ "  include            /etc/nginx/mime.types;"
    ∷ "  default_type       application/octet-stream;" ∷ "  keepalive_timeout  65;" ∷ "  types {"
    ∷ "    text/yaml         yaml yml;" ∷ "  }" ∷ "  server {" ∷ "    listen              9444 ssl;"
    ∷ "    listen              [::]:9444 ssl;" ∷ "    ssl_certificate     /var/cert/tls.crt;"
    ∷ "    ssl_certificate_key /var/cert/tls.key;"
    ∷ "    root                /usr/share/nginx/html;" ∷ "  }" ∷ "}" ∷ "" ∷ []

unfoldable pub desired_config_map : ConfigMapObject
desired_config_map = record {
  labels = catalog_labels;
  annotations = [];
  entries = ("nginx.conf", join nginx_lines "\n") ∷ [];
}

abbrev pub with_config_map : ConfigMapObject → ConfigMapObject → ConfigMapObject
with_config_map desired existing = record existing {
  labels = desired.labels;
  entries = desired.entries;
}

unfoldable pub create_or_update_catalog_config_map : String → Prog (Unit {0})
unfolding create_or_update
create_or_update_catalog_config_map namespace =
    create_or_update config_map_kind namespace catalog_name "catalog configmap" desired_config_map
      (with_config_map desired_config_map)

unfoldable pub desired_service : ServiceObject
desired_service = record {
  labels = catalog_labels;
  annotations = ("service.beta.openshift.io/serving-cert-secret-name", cert_secret_name) ∷ [];
  ports = record { name = "9444-tcp"; port = 9444; protocol = "TCP"; target_port = "https" } ∷ [];
  selector = catalog_labels;
  session_affinity = "None";
  kind = "ClusterIP";
  cluster_ip = "";
}

abbrev pub with_service : ServiceObject → ServiceObject → ServiceObject
with_service desired existing = record existing {
  labels = desired.labels;
  annotations = desired.annotations;
  ports = desired.ports;
  selector = desired.selector;
}

unfoldable pub create_or_update_catalog_service : String → Prog (Unit {0})
unfolding create_or_update
create_or_update_catalog_service namespace =
    create_or_update service_kind namespace catalog_name "catalog service" desired_service
      (with_service desired_service)

unfoldable pub catalog_container : String → Container
catalog_container image = record {
  name = catalog_name;
  image = image;
  image_pull_policy = "Always";
  ports = record { name = "https"; container_port = 9444; protocol = "TCP" } ∷ [];
  cpu_request = "10m";
  memory_request = "50Mi";
  allow_privilege_escalation = some false;
  dropped_capabilities = "ALL" ∷ [];
  volume_mounts =
      record {
        name = "pattern-ui-catalog-cert";
        mount_path = "/var/cert";
        sub_path = "";
        read_only = true;
      }
      ∷ record {
        name = "nginx-conf";
        mount_path = "/etc/nginx/nginx.conf";
        sub_path = "nginx.conf";
        read_only = true;
      }
      ∷ [];
}

unfoldable pub catalog_template : String → PodTemplate
unfolding catalog_container
catalog_template image = record {
  labels = catalog_labels;
  containers = catalog_container image ∷ [];
  restart_policy = "Always";
  dns_policy = "ClusterFirst";
  run_as_non_root = some true;
  service_account_name = "patterns-operator-controller-manager";
  volumes =
      record {
        name = "pattern-ui-catalog-cert";
        source = secret_volume cert_secret_name (some 0o644);
      }
      ∷ record { name = "nginx-conf"; source = config_map_volume catalog_name (some 0o644) }
      ∷ [];
}

unfoldable pub desired_deployment : String → DeploymentObject
unfolding catalog_template
desired_deployment image = record {
  labels = catalog_labels;
  annotations = [];
  spec = record {
    replicas = some 1;
    match_labels = catalog_labels;
    strategy = "RollingUpdate";
    max_unavailable = some "25%";
    max_surge = some "25%";
    template = catalog_template image;
  };
}

abbrev pub with_deployment : DeploymentObject → DeploymentObject → DeploymentObject
with_deployment desired existing = record existing { labels = desired.labels; spec = desired.spec }

unfoldable pub create_or_update_catalog_deployment : String → String → Prog (Unit {0})
unfolding create_or_update
create_or_update_catalog_deployment namespace image =
    create_or_update deployment_kind namespace catalog_name "catalog deployment"
      (desired_deployment image) (with_deployment (desired_deployment image))

unfoldable pub create_or_update_catalog : Env → Option Config → Prog (Unit {0})
unfolding ◌>>=◌
create_or_update_catalog e operator_config_map = do
  let namespace = get_deployment_namespace e
  create_or_update_catalog_config_map namespace
  create_or_update_catalog_service namespace
  create_or_update_catalog_deployment namespace (get_catalog_image operator_config_map)
