-- ===== src/Caching/Redis.antt =====
-- internal/caching/redis.go. The client of Redis is a parameter, with the state of its server; logrus.Fatal
-- ends the process and is an error.
use connaisseur.Prelude.{
  ℕ, ◌≡◌, refl, sym, ap, ◌⊎◌, inl, inr, Option, none, some, List, ◌++◌, arith, Text, lit, decimal,
  Result, ok, err, ◌>>=◌, >>=-eq-ok, ok-injective,
}
use connaisseur.Constants.{default_redis_port, redis_cert_dir}
use connaisseur.Utils.Feature.{Env, getenv}
use connaisseur.Caching.{Cacher, empty_cache, redis, Store, empty_store}

pub record RedisOptions (Pool : Type 0) : Type 0 where
  pub addr : Text
  pub password : Text
  pub root_cas : Pool
  pub min_version : ℕ

pub record RedisLibrary : Type 1 where
  pub Client : Type 0
  pub Pool : Type 0
  pub Server : Type 0
  -- x509.NewCertPool and AppendCertsFromPEM
  pub append_certs : Text → Option Pool
  pub new_client : RedisOptions Pool → Client
  pub get : Client → Server → Text → Result Text
  -- with the expiry, an int64 of nanoseconds by its bits
  pub set : Client → Server → Text → Text → ℕ → Server × Option Text
  pub del : Client → Server → List Text → Server × Option Text
  pub keys : Client → Server → Text → Result (List Text)
  pub ping : Client → Server → Option Text
  pub close : Client → Option Text

module _ (lib : RedisLibrary) where
  pub record Redis : Type 0 where
    pub client : lib.Client
    pub expiry : ℕ

  abbrev pub close : Redis → Option Text
  close r = lib.close r.client

  abbrev pub del : Redis → lib.Server → List Text → lib.Server × Option Text
  del r s keys = lib.del r.client s keys

  abbrev pub get : Redis → lib.Server → Text → Result Text
  get r s key = lib.get r.client s key

  abbrev pub keys : Redis → lib.Server → Text → Result (List Text)
  keys r s pattern = lib.keys r.client s pattern

  abbrev pub set : Redis → lib.Server → Text → Text → lib.Server × Option Text
  set r s key value = lib.set r.client s key value r.expiry

  -- the log aside
  abbrev pub ping : Redis → lib.Server → Option Text
  ping r s = lib.ping r.client s

  -- tls.VersionTLS12
  abbrev tls_12 : ℕ
  tls_12 = 771

  abbrev with_pool : Env → Option lib.Pool → Result lib.Client
  with_pool env none = err (lit "failed to append redis certificate")
  with_pool env (some pool) = ok (
      lib.new_client (record {
        addr = getenv env (lit "REDIS_HOST") ++ (lit ":" ++ decimal default_redis_port);
        password = getenv env (lit "REDIS_PASSWORD");
        root_cas = pool;
        min_version = tls_12;
      }))

  abbrev with_cert : Env → Text ⊎ Text → Result lib.Client
  with_cert env (inl cert) = with_pool env (lib.append_certs cert)
  with_cert env (inr e) = err (lit "could not read redis cert: " ++ e)

  -- `read_file` is os.ReadFile
  unfoldable pub redis_client : Env → (Text → Text ⊎ Text) → Result lib.Client
  redis_client env read_file = with_cert env (read_file (redis_cert_dir ++ lit "/tls.crt"))

  unfoldable pub new_redis : Env → (Text → Text ⊎ Text) → ℕ → Result Redis
  new_redis env read_file expiry =
      redis_client env read_file >>= λ client. ok (record { client = client; expiry = expiry })

  -- the cache that NewCacher opens
  pub data OpenCache : Type 0 where
    disabled : OpenCache
    connected : Redis → OpenCache

  unfoldable pub open_cache : Env → (Text → Text ⊎ Text) → Cacher → Result OpenCache
  open_cache env read_file empty_cache = ok disabled
  open_cache env read_file (redis expiry) = new_redis env read_file expiry >>= λ r. ok (connected r)

  -- the methods that a validation calls
  abbrev pub store : OpenCache → Store
  store disabled = empty_store
  store (connected r) = record { State = lib.Server; get = get r; set = set r }

  -- What an open cache is: the one that the configuration asks for; for Redis the certificate was read.
  abbrev pub IsOpen : (Text → Text ⊎ Text) → Cacher → OpenCache → Type 0
  IsOpen read_file empty_cache c = c ≡ disabled
  IsOpen read_file (redis expiry) c =
      (r : Redis) × (cert : Text) × (pool : lib.Pool) × (c ≡ connected r)
      × (r.expiry ≡ expiry)
      × (read_file (redis_cert_dir ++ lit "/tls.crt") ≡ inl cert)
      × (lib.append_certs cert ≡ some pool)

  with_pool-Appends :
      (env : Env) (o : Option lib.Pool) (client : lib.Client)
      → with_pool env o ≡ ok client
      → (pool : lib.Pool) × (o ≡ some pool)
  with_pool-Appends env none client h = absurd (ground arith)
  with_pool-Appends env (some pool) client h = (pool, refl)

  with_cert-Reads :
      (env : Env) (file : Text ⊎ Text) (client : lib.Client)
      → with_cert env file ≡ ok client
      → (cert : Text) × (pool : lib.Pool) × (file ≡ inl cert) × (lib.append_certs cert ≡ some pool)
  with_cert-Reads env (inr e) client h = absurd (ground arith)
  with_cert-Reads env (inl cert) client h =
      let (pool, q) = with_pool-Appends env (lib.append_certs cert) client h in
      (cert, pool, refl, q)

  pub open_cache-IsOpen :
      (env : Env) (read_file : Text → Text ⊎ Text) (choice : Cacher) (c : OpenCache)
      → open_cache env read_file choice ≡ ok c
      → IsOpen read_file choice c
  unfolding open_cache new_redis redis_client
  open_cache-IsOpen env read_file empty_cache c h = sym (ok-injective h)
  open_cache-IsOpen env read_file (redis expiry) c h =
      let (r, q, same) = >>=-eq-ok (new_redis env read_file expiry) _ h in
      let (client, k, made) = >>=-eq-ok (redis_client env read_file) _ q in
      let (cert, pool, read, appended) =
        with_cert-Reads env (read_file (redis_cert_dir ++ lit "/tls.crt")) client k in
      (
        r,
        cert,
        pool,
        sym (ok-injective same),
        sym (ap (λ (x : Redis). x.expiry) (ok-injective made)),
        read,
        appended,
      )
