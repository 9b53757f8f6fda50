-- ===== src/Server.antt =====
-- cmd/connaisseur/main.go: what happens up to the call of ListenAndServeTLS. Each parameter stands for a
-- package that is called; logrus.Fatal ends the process and is an error.
pub mod Started
use connaisseur.Prelude.{
  ℕ, ◌⊎◌, inl, inr, Bool, true, false, Option, none, some, List, [], ◌∷◌, ◌++◌, Text, lit, text_eq,
  if◌then◌else◌, Result, ok, err, panic, ◌>>=◌,
}
use connaisseur.Constants.{
  automatic_child_approval, http_timeout_seconds, config_dir, cert_dir, alert_dir,
}
use connaisseur.Utils.Feature.{Env, feature_flag_on}
use connaisseur.Utils.Files.{FileSystem}
use connaisseur.Utils.Logging.{
  Level, Format, json, json_pretty, Redirected, connaisseur_log_level, connaisseur_log_format,
  redirected,
}
use connaisseur.Config.Load.{Loader, Loaded, loaded, refused, exits, panics, load}
use connaisseur.Alert.Load.{load_config}
use connaisseur.Caching.{new_cacher}
use connaisseur.Caching.Redis.{RedisLibrary, OpenCache, open_cache}

pub record World : Type 1 where
  pub Conf : Type 0
  pub Alerting : Type 0
  pub Cluster : Type 0
  pub Api : Type 0
  pub files : FileSystem
  pub read_file : Text → Text ⊎ Text
  pub config_loader : Loader Conf
  pub alert_loader : Loader Alerting
  pub redis_library : RedisLibrary
  pub in_cluster_config : Cluster ⊎ Text
  -- the client is assigned whether or not there is an error
  pub new_for_config : Cluster → Option Api × Option Text

-- the four handlers that main.go registers
pub data Handler : Type 0 where
  health_handler mutate_handler metrics_handler : Handler

pub record LogSettings : Type 0 where
  pub pretty_print : Bool
  pub level : Level

abbrev pub pretty : Format → Bool
pretty json = false
pretty json_pretty = true

-- os.Setenv
abbrev pub set_env : Env → Text → Text → Env
set_env env key value = λ k. if text_eq k key then some value else env k

unfoldable pub without_sigstore_cache : Env → Env
without_sigstore_cache env = set_env env (lit "SIGSTORE_NO_CACHE") (lit "1")

abbrev pub fatal_unless_loaded : {A : Type 0} → Text → Loaded A → Result A
fatal_unless_loaded what (loaded a) = ok a
fatal_unless_loaded what (refused e) = err (what ++ e)
fatal_unless_loaded what (exits e) = err e
fatal_unless_loaded what panics = panic

abbrev pub config_file : List Text
config_file = lit "/config.yaml" ∷ []

module _ (world : World) where
  -- the values that the context of a request holds
  pub record Context : Type 0 where
    pub config : world.Conf
    pub alerting : world.Alerting
    pub cache : OpenCache world.redis_library
    pub kube_api : Option world.Api

  pub record Server : Type 0 where
    pub addr : Text
    pub routes : List (Text × Handler)
    pub read_timeout : ℕ
    pub write_timeout : ℕ
    pub context : Context
    pub cert_file : Text
    pub key_file : Text
    pub log : LogSettings
    pub libraries : Redirected

  abbrev api_of : world.Cluster ⊎ Text → Option world.Api
  api_of (inl cfg) = (world.new_for_config cfg).0
  api_of (inr e) = none

  unfoldable pub api_client : Env → Option world.Api
  api_client env =
      if feature_flag_on env automatic_child_approval then api_of world.in_cluster_config else none

  unfoldable pub start_server : Env → LogSettings → world.Conf → world.Alerting → Result Server
  unfolding new_cacher
  start_server env log config alerting =
      open_cache world.redis_library env world.read_file (new_cacher env) >>= λ cache. ok (record {
        addr = lit ":5000";
        routes =
            (lit "/health", health_handler)
            ∷ (lit "/ready", health_handler)
            ∷ (lit "/mutate", mutate_handler)
            ∷ (lit "/metrics", metrics_handler)
            ∷ [];
        read_timeout = http_timeout_seconds;
        write_timeout = http_timeout_seconds;
        context = record {
          config = config;
          alerting = alerting;
          cache = cache;
          kube_api = api_client env;
        };
        cert_file = cert_dir ++ lit "/tls.crt";
        key_file = cert_dir ++ lit "/tls.key";
        log = log;
        libraries = redirected env;
      })

  unfoldable pub load_configs : Result (world.Conf × world.Alerting)
  load_configs = do
    config ←
        fatal_unless_loaded (lit "error loading config: ")
          (load world.config_loader world.files config_dir config_file)
    alerting ←
        fatal_unless_loaded (lit "error loading alerting config: ")
          (load_config world.alert_loader world.files alert_dir config_file)
    ok (config, alerting)

  -- the server on which ListenAndServeTLS is called
  unfoldable pub main : Env → Result Server
  main env =
      let log : LogSettings = record {
        pretty_print = pretty (connaisseur_log_format env);
        level = connaisseur_log_level env;
      } in
      load_configs >>= λ configs. start_server (without_sigstore_cache env) log configs.0 configs.1
