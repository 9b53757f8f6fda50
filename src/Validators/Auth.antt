-- ===== src/Validators/Auth.antt =====
-- internal/validator/auth/auth.go: the credentials of a validator.
pub mod LookUp
use connaisseur.Prelude.{
  Bool, false, Option, none, some, List, [], ◌∷◌, ◌++◌, Text, lit, text_eq, has_prefix, ltb,
  if◌then◌else◌, length, is_empty, Result, ok, err, panic, ◌>>=◌, map_err,
}
use connaisseur.Constants.{empty_auth_registry}
use connaisseur.Image.Registry.{NameChecks, new_registry_repo, to_string}
use connaisseur.Validators.Interface.{Value, Mapping, as_string}

pub record AuthEntry : Type 0 where
  pub username : Text
  pub password : Text

-- a Go map, as the list of its entries in the order in which it is iterated over
abbrev pub AuthConfigs : Type 0
AuthConfigs = List (Text × AuthEntry)

pub record Auth : Type 0 where
  pub auth_configs : AuthConfigs
  pub use_keychain : Bool

abbrev pub no_entry : AuthEntry
no_entry = record { username = []; password = [] }

-- one round of `for k := range a.AuthConfigs`
unfoldable pub better_hit : Text → Text → Text → Text
better_hit img hit k =
    if ltb (length hit) (length k) then (if has_prefix img k then k else hit) else hit

unfoldable pub best_hit : Text → Text → AuthConfigs → Text
unfolding better_hit
best_hit img hit [] = hit
best_hit img hit ((k, e) ∷ m) = best_hit img (better_hit img hit k) m

-- a.AuthConfigs[key], the zero value where there is none
unfoldable pub entry_at : AuthConfigs → Text → AuthEntry
entry_at [] key = no_entry
entry_at ((k, e) ∷ m) key = let later = entry_at m key in if text_eq k key then e else later

unfoldable pub look_up : Auth → Text → AuthEntry
unfolding best_hit entry_at
look_up a img =
    let hit = best_hit img [] a.auth_configs in
    if is_empty hit then no_entry else entry_at a.auth_configs hit

-- the secret.yaml of a validator
pub record Secret : Type 0 where
  pub secret_username : Text
  pub secret_password : Text
  pub secret_registry : Text

-- The files: SafeFileName below the directory of secrets, and the two decoders.
pub record Files : Type 0 where
  pub safe_file_name : Text → Text → Result Text
  pub read_yaml : Text → Result Secret
  pub read_docker : Text → Result AuthConfigs

unfoldable pub read_default_auth_file : NameChecks → Files → Text → Result AuthConfigs
read_default_auth_file checks files path = do
  af ← files.read_yaml path
  let registry = if is_empty af.secret_registry then empty_auth_registry else af.secret_registry
  rr ←
      map_err (λ e. lit "unable to parse registry " ++ (registry ++ (lit ": " ++ e)))
        (new_registry_repo checks registry)
  ok ((to_string rr, record { username = af.secret_username; password = af.secret_password }) ∷ [])

-- authCfgs[key] = entry
unfoldable pub set_entry : AuthConfigs → Text → AuthEntry → AuthConfigs
set_entry [] key e = (key, e) ∷ []
set_entry ((k, f) ∷ m) key e = if text_eq k key then (k, e) ∷ m else (k, f) ∷ set_entry m key e

unfoldable pub docker_entries : NameChecks → AuthConfigs → AuthConfigs → Result AuthConfigs
unfolding set_entry
docker_entries checks [] cfgs = ok cfgs
docker_entries checks ((key, value) ∷ rest) cfgs = do
  rr ←
      map_err (λ e. lit "unable to parse registry " ++ (key ++ (lit ": " ++ e)))
        (new_registry_repo checks key)
  docker_entries checks rest (set_entry cfgs (to_string rr) value)

unfoldable pub read_docker_auth_file : NameChecks → Files → Text → Result AuthConfigs
unfolding docker_entries
read_docker_auth_file checks files path = do
  entries ← files.read_docker path
  docker_entries checks entries []

abbrev read_error : Text → Text → Text
read_error file e = lit "error reading authentication file " ++ (file ++ (lit ": " ++ e))

abbrev with_configs : AuthConfigs → Auth
with_configs cfgs = record { auth_configs = cfgs; use_keychain = false }

-- the loop over the two files: the first that SafeFileName resolves is read
abbrev second_file : NameChecks → Files → Text → Result Text → Result Auth
second_file checks files name (ok file) =
    map_err (read_error file) (read_docker_auth_file checks files file) >>= λ cfgs.
    ok (with_configs cfgs)
second_file checks files name (err e) = err (lit "no authentication file for secret " ++ name)
second_file checks files name panic = panic

abbrev first_file : NameChecks → Files → Text → Result Text → Result Auth
first_file checks files name (ok file) =
    map_err (read_error file) (read_default_auth_file checks files file) >>= λ cfgs.
    ok (with_configs cfgs)
first_file checks files name (err e) =
    second_file checks files name (files.safe_file_name name (lit ".dockerconfigjson"))
first_file checks files name panic = panic

-- `useKeychain` as a Boolean, where it is one
abbrev keychain : Option (Option Bool) → Result Auth
keychain none = err (lit "neither secretName nor useKeychain defined")
keychain (some none) = panic
keychain (some (some b)) = ok (record { auth_configs = []; use_keychain = b })

unfoldable pub unmarshal_yaml :
    NameChecks → Files → Option Value → Option (Option Bool) → Result Auth
unmarshal_yaml checks files none use_keychain = keychain use_keychain
unmarshal_yaml checks files (some sn) use_keychain = do
  name ← as_string sn
  first_file checks files name (files.safe_file_name name (lit "secret.yaml"))
