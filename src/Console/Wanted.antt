-- ===== src/Console/Wanted.antt =====
-- What the catalog's objects have to be, written without the code's own functions
-- (internal/controller/console/catalog.go).
use patterns_operator.Prelude.{
  String, false, Option, none, some, [], ◌∷◌, map, lookup, ◌≡◌, ◌≢◌, ◌⊎◌, refl, ap, inl, inr,
  Option-cases, Bool-cases, eq_iff, ◌==◌,
}
use patterns_operator.Config.{Config}
use patterns_operator.Workloads.{ConfigMapObject, ServiceObject, DeploymentObject}
use patterns_operator.Console.Catalog.{
  get_catalog_image, desired_config_map, with_config_map, desired_service, with_service,
  desired_deployment, with_deployment, catalog_template, catalog_container,
}
use patterns_operator.Console.Store.{desired_or}

-- The image of the catalog: that of the operator's ConfigMap where it names one.
abbrev pub WantedImage : Option Config → String → Type 0
WantedImage none image = image ≡ "quay.io/validatedpatterns/pattern-ui-catalog:stable-v1"
WantedImage (some m) image =
    ((image ≢ "") × (lookup "catalog.image" m ≡ some image))
    ⊎ (((lookup "catalog.image" m ≡ none) ⊎ (lookup "catalog.image" m ≡ some ""))
        × (image ≡ "quay.io/validatedpatterns/pattern-ui-catalog:stable-v1"))

pub get_catalog_image-WantedImage : (m : Option Config) → WantedImage m (get_catalog_image m)
unfolding get_catalog_image
get_catalog_image-WantedImage none = refl
get_catalog_image-WantedImage (some m) = elim (Option-cases (lookup "catalog.image" m)) [
  | inl missing ↦ rw missing (inr (inl refl, refl))
  | inr (image, found) ↦ elim (Bool-cases (image == "")) [
    | inl e ↦ rw (found, e) (inr (inr (ap (λ i. some i) ((eq_iff image "").0 e)), refl))
    | inr e ↦ rw (found, e) (inl (differs image e, refl))
  ]
]
  where
    differs : (image : String) → image == "" ≡ false → image ≢ ""
    differs image e same = absurd (cc (e, (eq_iff image "").1 same))

-- What a Deployment has to be to run the catalog: one replica of a pod whose only container runs the
-- image under the label by which the Service finds it, with the certificate of the Service.
pub record RunsCatalog (image : String) (d : DeploymentObject) : Type 0 where
  pub replicas : d.spec.replicas ≡ some 1
  pub selects :
      d.spec.match_labels
      ≡ ("app.kubernetes.io/component", "patterns-operator-pattern-ui-catalog") ∷ []
  pub labelled : d.spec.template.labels ≡ d.spec.match_labels
  pub images : map (λ c. c.image) d.spec.template.containers ≡ image ∷ []
  pub mounts :
      map (λ v. v.name) d.spec.template.volumes ≡ "pattern-ui-catalog-cert" ∷ "nginx-conf" ∷ []

-- The Service finds the pods by that label, at the port at which nginx listens, and asks for the
-- certificate that they mount.
pub record ServesCatalog (o : ServiceObject) : Type 0 where
  pub selects :
      o.selector ≡ ("app.kubernetes.io/component", "patterns-operator-pattern-ui-catalog") ∷ []
  pub ports : map (λ p. p.port) o.ports ≡ 9444 ∷ []
  pub certificate :
      lookup "service.beta.openshift.io/serving-cert-secret-name" o.annotations
      ≡ some "patterns-operator-pattern-ui-catalog-cert"

pub RunsCatalog-desired_or :
    (image : String) (o : Option DeploymentObject)
    → RunsCatalog image
        (desired_or (desired_deployment image) (with_deployment (desired_deployment image)) o)
unfolding desired_deployment catalog_template catalog_container
RunsCatalog-desired_or image none = record {
  replicas = refl;
  selects = refl;
  labelled = refl;
  images = refl;
  mounts = refl;
}
RunsCatalog-desired_or image (some d) = record {
  replicas = refl;
  selects = refl;
  labelled = refl;
  images = refl;
  mounts = refl;
}

pub ServesCatalog-desired_or :
    (o : Option ServiceObject)
    → ServesCatalog (desired_or desired_service (with_service desired_service) o)
unfolding desired_service
ServesCatalog-desired_or none = record { selects = refl; ports = refl; certificate = refl }
ServesCatalog-desired_or (some s) = record { selects = refl; ports = refl; certificate = refl }

pub nginx-desired_or :
    (o : Option ConfigMapObject)
    → map (λ e. e.0) (desired_or desired_config_map (with_config_map desired_config_map) o).entries
      ≡ "nginx.conf" ∷ []
unfolding desired_config_map
nginx-desired_or none = refl
nginx-desired_or (some m) = refl
