-- ===== src/Console/Enables.antt =====
-- How the plugin is enabled in the console (internal/controller/console/plugin.go, EnablePlugin).
use patterns_operator.Prelude.{
  String, true, some, List, [], ◌∷◌, ◌++◌, ◌≡◌, refl, ap, ◌∙◌, inl, inr, Bool-cases, contains,
  contains-last, if◌then◌else◌,
}
use patterns_operator.Workloads.{ConsoleObject, console_kind}
use patterns_operator.Cluster.{Request, ask, ◌>>=◌}
use patterns_operator.Cluster.Runs.{Environment, returned, run}
use patterns_operator.Console.Plugin.{plugin_name, enable_plugin}
use patterns_operator.Console.Store.{Store, Serves}

module _ {W : Type 0} (answer : Environment W) (view : W → Store)
    (serves : Serves answer view) where
  -- The plugins of the console after the plugin has been enabled: those that were there, in order, and
  -- the plugin of the operator, added at the end if it was missing.
  abbrev pub with_own_plugin : List String → List String
  with_own_plugin plugins =
      if contains plugins plugin_name then plugins else plugins ++ plugin_name ∷ []

  contains-with_own_plugin : (xs : List String) → contains (with_own_plugin xs) plugin_name ≡ true
  contains-with_own_plugin xs = elim (Bool-cases (contains xs plugin_name)) [
    | inl b ↦ rw b b
    | inr b ↦ rw b (contains-last xs plugin_name)
  ]

  enable_plugin-once :
      (w : W) (c : ConsoleObject)
      → view w console_kind "" "cluster" ≡ some c
      → ((run answer enable_plugin w).1 ≡ returned tt)
        × (view (run answer enable_plugin w).2 console_kind "" "cluster"
            ≡ some (record c { plugins = with_own_plugin c.plugins }))
  unfolding enable_plugin run ask ◌>>=◌
  enable_plugin-once w c h =
      let read = rw h at (serves.finds console_kind "" "cluster" w) in
      let w' = (answer (Request.get_object console_kind "" "cluster") w).1 in
      let kept =
        ap (λ (s : Store). s console_kind "" "cluster") (serves.reads console_kind "" "cluster" w)
        ∙ h in
      let added = record c { plugins = c.plugins ++ plugin_name ∷ [] } in
      let (made, after) = serves.updates console_kind "" "cluster" c added w' kept in
      elim (Bool-cases (contains c.plugins plugin_name)) [
        | inl b ↦ (rw (read, run, b) refl, rw (read, run, b) kept)
        | inr b ↦ (
          rw (read, run, b, made) refl,
          rw (read, run, b, made) (ap (λ (s : Store). s console_kind "" "cluster") after),
        )
      ]

  -- The next pass reads the console and finds nothing to do.
  enable_plugin-idle :
      (w : W) (c : ConsoleObject)
      → view w console_kind "" "cluster" ≡ some c
      → contains c.plugins plugin_name ≡ true
      → (run answer enable_plugin w).0 ≡ Request.get_object console_kind "" "cluster" ∷ []
  unfolding enable_plugin run ask ◌>>=◌
  enable_plugin-idle w c h b =
      let read = rw h at (serves.finds console_kind "" "cluster" w) in rw (read, b) refl

  pub record Enables (w : W) (c : ConsoleObject) : Type 0 where
    pub succeeds : (run answer enable_plugin w).1 ≡ returned tt
    pub leaves :
        view (run answer enable_plugin w).2 console_kind "" "cluster"
        ≡ some (record c { plugins = with_own_plugin c.plugins })
    pub is_enabled : contains (with_own_plugin c.plugins) plugin_name ≡ true
    pub then_idle :
        (run answer enable_plugin (run answer enable_plugin w).2).0
        ≡ Request.get_object console_kind "" "cluster" ∷ []

  -- Against an API server that keeps a store of objects and grants every write, if the console is
  -- there: EnablePlugin succeeds, keeps the plugins that were there, in order, adds the
  -- operator's own at the end if it was missing, and leaves the rest of the console alone; the
  -- next call only reads the console.
  pub enable_plugin-Enables :
      (w : W) (c : ConsoleObject) → view w console_kind "" "cluster" ≡ some c → Enables w c
  enable_plugin-Enables w c h =
      let (done, left) = enable_plugin-once w c h in
      record {
        succeeds = done;
        leaves = left;
        is_enabled = contains-with_own_plugin c.plugins;
        then_idle =
            enable_plugin-idle (run answer enable_plugin w).2
              (record c { plugins = with_own_plugin c.plugins }) left
              (contains-with_own_plugin c.plugins);
      }
