-- ===== src/Console/Converges.antt =====
-- What the catalog and the plugin come to (internal/controller/console): the objects after a pass, and
-- that a second pass changes nothing.
use patterns_operator.Prelude.{
  String, Option, none, some, [], ◌∷◌, map, ◌&&◌, ◌==◌, ◌≡◌, refl, sym, ap, ◌∙◌, inl, inr,
  Bool-cases, eq_iff,
}
use patterns_operator.Config.{Config}
use patterns_operator.Defaults.{Env}
use patterns_operator.Workloads.{
  ConfigMapObject, ServiceObject, DeploymentObject, Kind, config_map_kind, service_kind,
  deployment_kind, console_plugin_kind, console_kind,
}
use patterns_operator.Cluster.{◌>>=◌}
use patterns_operator.Cluster.Runs.{Environment, returned, run, run->>=}
use patterns_operator.Console.{get_deployment_namespace}
use patterns_operator.Console.Catalog.{
  catalog_name, get_catalog_image, desired_config_map, with_config_map, desired_service,
  with_service, desired_deployment, with_deployment, create_or_update_catalog_config_map,
  create_or_update_catalog_service, create_or_update_catalog_deployment, create_or_update_catalog,
}
use patterns_operator.Console.Store.{
  Store, at, desired_or, Serves, applied, create_or_update-Applies,
}
use patterns_operator.Console.Wanted.{
  WantedImage, RunsCatalog, ServesCatalog, get_catalog_image-WantedImage, RunsCatalog-desired_or,
  ServesCatalog-desired_or, nginx-desired_or,
}

-- The store with the three objects of the catalog as the operator wants them.
abbrev pub catalog_applied : String → String → Store → Store
catalog_applied namespace image s =
    applied deployment_kind namespace catalog_name (desired_deployment image)
      (with_deployment (desired_deployment image))
      (applied service_kind namespace catalog_name desired_service (with_service desired_service) (
        applied config_map_kind namespace catalog_name desired_config_map
          (with_config_map desired_config_map) s))

at_self :
    {A : Type 0} (ns n : String) (o : Option A) (s : String → String → Option A)
    → at ns n o s ns n ≡ o
at_self ns n o s = rw ((eq_iff ns ns).1 refl, (eq_iff n n).1 refl) refl

-- Taking the operator's fields over once more changes nothing.
taken_over :
    {A : Type 0} (desired : A) (take_over : A → A) (o : Option A)
    → ((a : A) → take_over (take_over a) ≡ take_over a)
    → take_over desired ≡ desired
    → take_over (desired_or desired take_over o) ≡ desired_or desired take_over o
taken_over desired take_over none twice once = once
taken_over desired take_over (some a) twice once = twice a

at_again :
    {A : Type 0} (ns n : String) (desired : A) (take_over : A → A) (s : String → String → Option A)
    (ns' n' : String)
    → ((a : A) → take_over (take_over a) ≡ take_over a)
    → take_over desired ≡ desired
    → (let one = at ns n (some (desired_or desired take_over (s ns n))) s in
        at ns n (some (desired_or desired take_over (one ns n))) one ns' n' ≡ one ns' n')
at_again ns n desired take_over s ns' n' twice once = elim (Bool-cases (ns == ns' && n == n')) [
  | inl b ↦
      rw
        (
          b,
          at_self ns n (some (desired_or desired take_over (s ns n))) s,
          taken_over desired take_over (s ns n) twice once,
        )
        refl
  | inr b ↦ rw b refl
]

catalog_applied-twice :
    (ns image : String) (s : Store) (k : Kind) (ns' n' : String)
    → catalog_applied ns image (catalog_applied ns image s) k ns' n'
      ≡ catalog_applied ns image s k ns' n'
catalog_applied-twice ns image s config_map_kind ns' n' =
    at_again ns catalog_name desired_config_map (with_config_map desired_config_map)
      (s config_map_kind) ns' n' (λ a. refl) refl
catalog_applied-twice ns image s service_kind ns' n' =
    at_again ns catalog_name desired_service (with_service desired_service) (s service_kind) ns' n'
      (λ a. refl) refl
catalog_applied-twice ns image s deployment_kind ns' n' =
    at_again ns catalog_name (desired_deployment image) (with_deployment (desired_deployment image))
      (s deployment_kind) ns' n' (λ a. refl) refl
catalog_applied-twice ns image s console_plugin_kind ns' n' = refl
catalog_applied-twice ns image s console_kind ns' n' = refl

module _ {W : Type 0} (answer : Environment W) (view : W → Store) (serves : Serves answer view)
    (e : Env) (m : Option Config) where
  abbrev catalog_state : W → W
  catalog_state w = (run answer (create_or_update_catalog e m) w).2

  create_or_update_catalog-Applies :
      (w : W)
      → ((run answer (create_or_update_catalog e m) w).1 ≡ returned tt)
        × (view (catalog_state w)
            ≡ catalog_applied (get_deployment_namespace e) (get_catalog_image m) (view w))
  unfolding create_or_update_catalog create_or_update_catalog_config_map
      create_or_update_catalog_service create_or_update_catalog_deployment
  create_or_update_catalog-Applies w =
      let ns = get_deployment_namespace e in
      let image = get_catalog_image m in
      let (made1, after1) =
        create_or_update-Applies answer view serves config_map_kind ns catalog_name
          "catalog configmap" desired_config_map (with_config_map desired_config_map) w in
      let w1 = (run answer (create_or_update_catalog_config_map ns) w).2 in
      let (made2, after2) =
        create_or_update-Applies answer view serves service_kind ns catalog_name "catalog service"
          desired_service (with_service desired_service) w1 in
      let w2 = (run answer (create_or_update_catalog_service ns) w1).2 in
      let (made3, after3) =
        create_or_update-Applies answer view serves deployment_kind ns catalog_name
          "catalog deployment" (desired_deployment image)
          (with_deployment (desired_deployment image)) w2 in
      let rest2 = λ (u : Unit {0}). create_or_update_catalog_deployment ns image in
      let rest1 = λ (u : Unit {0}). create_or_update_catalog_service ns >>= rest2 in
      let (sent1, outcome1, state1) =
        run->>= answer (create_or_update_catalog_config_map ns) rest1 tt w made1 in
      let (sent2, outcome2, state2) =
        run->>= answer (create_or_update_catalog_service ns) rest2 tt w1 made2 in
      (
        outcome1 ∙ outcome2 ∙ made3,
        ap view (state1 ∙ state2)
            ∙ after3
            ∙ ap
                (λ (s : Store).
                  applied deployment_kind ns catalog_name (desired_deployment image)
                    (with_deployment (desired_deployment image)) s)
                (after2
                  ∙ ap
                      (λ (s : Store).
                        applied service_kind ns catalog_name desired_service
                          (with_service desired_service) s)
                      after1),
      )

  -- What one pass over the catalog and a second one after it come to.
  pub record Converges (w : W) : Type 0 where
    pub succeeds : (run answer (create_or_update_catalog e m) w).1 ≡ returned tt
    pub leaves :
        view (catalog_state w)
        ≡ catalog_applied (get_deployment_namespace e) (get_catalog_image m) (view w)
    pub deployment :
        (image : String) × ((d : DeploymentObject) × WantedImage m image
          × (view
                (catalog_state w)
                deployment_kind
                (get_deployment_namespace e)
                "patterns-operator-pattern-ui-catalog"
              ≡ some d)
          × RunsCatalog image d)
    pub service :
        (o : ServiceObject) × (view
            (catalog_state w)
            service_kind
            (get_deployment_namespace e)
            "patterns-operator-pattern-ui-catalog"
          ≡ some o)
        × ServesCatalog o
    pub config_map :
        (o : ConfigMapObject) × (view
            (catalog_state w)
            config_map_kind
            (get_deployment_namespace e)
            "patterns-operator-pattern-ui-catalog"
          ≡ some o)
        × (map (λ c. c.0) o.entries ≡ "nginx.conf" ∷ [])
    pub succeeds_again :
        (run answer (create_or_update_catalog e m) (catalog_state w)).1 ≡ returned tt
    pub stays :
        (k : Kind) (ns n : String)
        → view (catalog_state (catalog_state w)) k ns n ≡ view (catalog_state w) k ns n

  -- Against an API server that keeps a store of objects and grants every write,
  -- CreateOrUpdateCatalog succeeds and leaves, whether or not they were there before: a Deployment of one
  -- replica whose only container runs the image that the operator's ConfigMap names, or the default
  -- one, with the two volumes; a Service on port 9444 that selects its pods and asks for their
  -- certificate; and a ConfigMap whose only entry is nginx.conf. The store is otherwise as before but for
  -- those three, and a second pass succeeds and leaves every object as the first has left it.
  pub create_or_update_catalog-Converges : (w : W) → Converges w
  create_or_update_catalog-Converges w =
      let ns = get_deployment_namespace e in
      let image = get_catalog_image m in
      let (done, left) = create_or_update_catalog-Applies w in
      let with_config_map_applied : Store =
        applied config_map_kind ns catalog_name desired_config_map
          (with_config_map desired_config_map) (view w) in
      let with_service_applied : Store =
        applied service_kind ns catalog_name desired_service (with_service desired_service)
          with_config_map_applied in
      let (done_again, left_again) = create_or_update_catalog-Applies (catalog_state w) in
      record {
        succeeds = done;
        leaves = left;
        deployment = (
          image,
          (
            _,
            get_catalog_image-WantedImage m,
            ap (λ (s : Store). s deployment_kind ns catalog_name) left
                ∙ at_self ns catalog_name _ (with_service_applied deployment_kind),
            RunsCatalog-desired_or image _,
          ),
        );
        service = (
          _,
          ap (λ (s : Store). s service_kind ns catalog_name) left
              ∙ at_self ns catalog_name _ (with_config_map_applied service_kind),
          ServesCatalog-desired_or _,
        );
        config_map = (
          _,
          ap (λ (s : Store). s config_map_kind ns catalog_name) left
              ∙ at_self ns catalog_name _ (view w config_map_kind),
          nginx-desired_or _,
        );
        succeeds_again = done_again;
        stays = λ k ns' n'.
            ap (λ (s : Store). s k ns' n')
              (left_again ∙ ap (λ (s : Store). catalog_applied ns image s) left)
            ∙ catalog_applied-twice ns image (view w) k ns' n'
            ∙ ap (λ (s : Store). s k ns' n') (sym left);
      }
