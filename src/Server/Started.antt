-- ===== src/Server/Started.antt =====
-- What a server has that is started.
use connaisseur.Prelude.{
  ◌≡◌, refl, ap, subst, ◌∙◌, false, none, arith, Text, lit, text_eq, ok, >>=-eq-ok, ok-injective,
}
use connaisseur.Constants.{automatic_child_approval, config_dir, alert_dir}
use connaisseur.Utils.Feature.{Env, getenv, feature_flag_on}
use connaisseur.Utils.Files.Clean.{IsAbsolute}
use connaisseur.Utils.Logging.{
  connaisseur_log_level, streams_at, redirected-streams, IsLevelOf, connaisseur_log_level-IsLevelOf,
}
use connaisseur.Config.Load.{
  Loader, load, Loaded, loaded, refused, exits, panics, IsLoaded, load-IsLoaded,
}
use connaisseur.Caching.{new_cacher}
use connaisseur.Caching.Redis.{IsOpen, open_cache, open_cache-IsOpen}
use connaisseur.Server.{
  World, Server, fatal_unless_loaded, without_sigstore_cache, load_configs, config_file,
  start_server, main, api_client,
}

fatal_unless_loaded-ok :
    {A : Type 0} (what : Text) (l : Loaded A) (a : A)
    → fatal_unless_loaded what l ≡ ok a
    → l ≡ loaded a
fatal_unless_loaded-ok what (loaded b) a h = ap loaded (ok-injective h)
fatal_unless_loaded-ok what (refused e) a h = absurd (ground arith)
fatal_unless_loaded-ok what (exits e) a h = absurd (ground arith)
fatal_unless_loaded-ok what panics a h = absurd (ground arith)

module _ (world : World) where
  -- The server's configurations are valid and from files in their directories, its cache is the one that
  -- the environment asks for, and without the feature it has no client of the Kubernetes API.
  pub record IsStarted (env : Env) (s : Server world) : Type 0 where
    pub configured : IsLoaded world.config_loader world.files config_dir s.context.config
    pub alerting : IsLoaded world.alert_loader world.files alert_dir s.context.alerting
    pub cached : IsOpen world.redis_library world.read_file (new_cacher env) s.context.cache
    pub api : feature_flag_on env automatic_child_approval ≡ false → s.context.kube_api ≡ none
    pub level : IsLevelOf (getenv env (lit "LOG_LEVEL")) s.log.level
    pub libraries : s.libraries ≡ streams_at s.log.level

  without_sigstore_cache-new_cacher :
      (env : Env) → new_cacher (without_sigstore_cache env) ≡ new_cacher env
  unfolding new_cacher connaisseur.Caching.expiry_seconds without_sigstore_cache lit text_eq
  without_sigstore_cache-new_cacher env = refl

  without_sigstore_cache-level :
      (env : Env) → connaisseur_log_level (without_sigstore_cache env) ≡ connaisseur_log_level env
  unfolding without_sigstore_cache lit text_eq
  without_sigstore_cache-level env = refl

  without_sigstore_cache-flag :
      (env : Env)
      → feature_flag_on (without_sigstore_cache env) automatic_child_approval
        ≡ feature_flag_on env automatic_child_approval
  unfolding feature_flag_on without_sigstore_cache lit text_eq
  without_sigstore_cache-flag env = refl

  api_client-off :
      (env : Env)
      → feature_flag_on env automatic_child_approval ≡ false
      → api_client world env ≡ none
  unfolding api_client
  api_client-off env off = rw off refl

  module _
      (abs_IsAbsolute : (dir base : Text) → world.files.abs dir ≡ ok base → IsAbsolute base) where
    fatal_unless_loaded-IsLoaded :
        {A : Type 0} (loader : Loader A) (dir what : Text) (a : A)
        → fatal_unless_loaded what (load loader world.files dir config_file) ≡ ok a
        → IsLoaded loader world.files dir a
    fatal_unless_loaded-IsLoaded loader dir what a h =
        load-IsLoaded loader world.files dir config_file abs_IsAbsolute a
          (fatal_unless_loaded-ok what (load loader world.files dir config_file) a h)

    -- Let filepath.Abs return an absolute path that is clean. A server is started only with a
    -- configuration and an alerting configuration that were decoded from files whose names SafeFileName
    -- resolved in their directories, as far as a prefix tells, and passed the validation; its cache is the one that the environment asks for, and for Redis its
    -- certificate was read; it has no client of the Kubernetes API where child approval is off; and the log
    -- and the streams of the libraries have the level that the environment sets.
    pub main-IsStarted : (env : Env) (s : Server world) → main world env ≡ ok s → IsStarted env s
    unfolding main load_configs start_server
    main-IsStarted env s h =
        let (configs, q, started) = >>=-eq-ok (load_configs world) _ h in
        let (config, c, q') = >>=-eq-ok (fatal_unless_loaded _ _) _ q in
        let (alerting, a, both) = >>=-eq-ok (fatal_unless_loaded _ _) _ q' in
        let env' = without_sigstore_cache env in
        let (cache, o, made) =
          >>=-eq-ok (open_cache world.redis_library env' world.read_file (new_cacher env')) _
            started in
        subst (IsStarted env) (ok-injective made) (record {
          configured =
              subst (IsLoaded world.config_loader world.files config_dir)
                (ap (λ p. p.0) (ok-injective both))
                (fatal_unless_loaded-IsLoaded world.config_loader config_dir _ config c);
          alerting =
              subst (IsLoaded world.alert_loader world.files alert_dir)
                (ap (λ p. p.1) (ok-injective both))
                (fatal_unless_loaded-IsLoaded world.alert_loader alert_dir _ alerting a);
          cached =
              subst (λ n. IsOpen world.redis_library world.read_file n cache)
                (without_sigstore_cache-new_cacher env)
                (open_cache-IsOpen world.redis_library env' world.read_file (new_cacher env') cache
                  o);
          api = λ off. api_client-off env' (without_sigstore_cache-flag env ∙ off);
          level = connaisseur_log_level-IsLevelOf env;
          libraries = redirected-streams env' ∙ ap streams_at (without_sigstore_cache-level env);
        })
