-- ===== src/Tests/Server.antt =====
-- A server that is started with the default environment.
use connaisseur.Prelude.{
  ◌≡◌, refl, subst, inl, inr, none, some, [], ◌∷◌, Text, lit, text_eq, has_prefix, split, join,
  index, ok, err, ok-injective,
}
use connaisseur.Utils.Files.Clean.{IsAbsolute}
use connaisseur.Config.Load.{Loader}
use connaisseur.Caching.Redis.{RedisLibrary}
use connaisseur.Server.{World, Server, main}
use connaisseur.Server.Started.{IsStarted, main-IsStarted}
use connaisseur.Tests.Samples.{no_env}

abbrev text_loader : Loader Text
text_loader = record {
  open_file = λ file. inl file;
  decode = λ content. inl content;
  type_name = lit "Config";
  struct_errors = λ a. none;
  quote = λ t. t;
}

-- a Redis server that keeps no entry
abbrev forgetful : RedisLibrary
forgetful = record {
  Client = Text;
  Pool = Text;
  Server = Text;
  append_certs = λ cert. some cert;
  new_client = λ options. options.addr;
  get = λ client s key. err (lit "redis: nil");
  set = λ client s key value expiry. (s, none);
  del = λ client s keys. (s, none);
  keys = λ client s pattern. ok [];
  ping = λ client s. none;
  close = λ client. none;
}

abbrev pod_world : World
pod_world = record {
  Conf = Text;
  Alerting = Text;
  Cluster = Text;
  Api = Text;
  files = record { abs = λ dir. ok (lit "/app"); eval_symlinks = λ path. ok path };
  read_file = λ file. inl file;
  config_loader = text_loader;
  alert_loader = text_loader;
  redis_library = forgetful;
  in_cluster_config = inr (lit "not in a cluster");
  new_for_config = λ cfg. (some cfg, none);
}

abs_app : (dir base : Text) → pod_world.files.abs dir ≡ ok base → IsAbsolute base
unfolding lit text_eq join connaisseur.Prelude.index
abs_app dir base h =
    subst IsAbsolute (ok-injective h) (lit "app" ∷ [], ((refl, refl, refl, refl), tt), refl)

default_server : (s : Server pod_world) × (main pod_world no_env ≡ ok s)
unfolding main connaisseur.Server.load_configs connaisseur.Config.Load.load
    connaisseur.Prelude.has_prefix lit join connaisseur.Prelude.split text_eq
    connaisseur.Server.start_server connaisseur.Caching.Redis.open_cache
    connaisseur.Server.without_sigstore_cache connaisseur.Caching.Redis.new_redis
    connaisseur.Caching.Redis.redis_client connaisseur.Utils.Validation.validate_struct
default_server = (_, refl)

main_example : IsStarted pod_world no_env default_server.0
main_example = main-IsStarted pod_world abs_app no_env default_server.0 default_server.1
