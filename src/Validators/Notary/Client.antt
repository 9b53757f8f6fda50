-- ===== src/Validators/Notary/Client.antt =====
-- internal/validator/notaryv1/notaryserver: client.go and simple_cred_store.go. HTTP is a parameter; a
-- transport is described by what is configured of it.
pub mod Total
use connaisseur.Prelude.{
  String, ℕ, ◌⊎◌, inl, inr, Bool, not, Option, none, some, ◌++◌, Text, lit, ◌==◌, if◌then◌else◌,
  is_empty, Result, ok, err, panic, ◌>>=◌, map_err,
}
use connaisseur.Image.{Image, notary_reference}
use connaisseur.Image.Registry.{NameChecks, RegistryRepo, new_registry_repo, to_string}
use connaisseur.Validators.Auth.{AuthEntry, Auth, look_up}
use connaisseur.Validators.Notary.{Tuf, TrustData, or_fail, check}

pub record Response : Type 0 where
  pub status_code : ℕ
  pub status : Text
  -- io.ReadAll of the body
  pub body : Text ⊎ Text

-- the certificate of the TLS configuration, and the repository and the credentials of the authorizer
pub record Transport : Type 0 where
  pub root_ca : Option Text
  pub authorizer : Option (Text × AuthEntry)

pub record Http : Type 0 where
  -- the error of http.NewRequest
  pub new_request : Text → Option Text
  pub do_request : Transport → Text → Response ⊎ Text
  -- AppendCertsFromPEM
  pub append_certs : Text → Bool
  -- the error of AddResponse
  pub add_response : Response → Option Text

pub record NotaryClient : Type 0 where
  pub client : Transport
  pub host : Text
  pub repo : Text

unfoldable pub tls_config : Http → Text → Result (Option Text)
tls_config http cert =
    if not (is_empty cert)
    then (if http.append_certs cert
        then ok (some cert)
        else err (lit "failed to parse root certificate"))
    else ok none

unfoldable pub base_transport : Http → Text → Result Transport
base_transport http cert =
    map_err (λ e. lit "error setting up TLS config: " ++ e) (tls_config http cert) >>= λ root_ca.
    ok (record { root_ca = root_ca; authorizer = none })

-- the error of NewRegistryRepo is ignored, and its result is nil where there is one
abbrev pub with_registry : Transport → Auth → Text → Result RegistryRepo → Result Transport
with_registry base auth repo (ok rr) =
    ok (record base { authorizer = some (repo, look_up auth (to_string rr)) })
with_registry base auth repo (err e) = panic
with_registry base auth repo panic = panic

unfoldable pub build_auth_transport : NameChecks → Transport → Text → Auth → Text → Result Transport
build_auth_transport names base host auth repo =
    with_registry base auth repo (new_registry_repo names host)

-- the client, once the server has answered the ping
unfoldable pub of_ping :
    Http → NameChecks → Transport → Text → Auth → Text → Response → Result NotaryClient
unfolding build_auth_transport
of_ping http names base host auth repo response =
    if response.status_code == 401
    then (check (λ e. lit "error adding challenge response: " ++ e) (http.add_response response)
        >>= λ _. build_auth_transport names base host auth repo >>= λ transport.
            ok (record { client = transport; host = host; repo = repo }))
    else ok (record { client = base; host = host; repo = repo })

unfoldable pub new_notary_client :
    Http → NameChecks → Text → Text → Auth → Image → Result NotaryClient
unfolding base_transport of_ping
new_notary_client http names host cert auth img = do
  let repo = notary_reference img
  let url = host ++ lit "/v2/"
  _ ← check (λ e. lit "error creating ping request: " ++ e) (http.new_request url)
  base ←
      map_err (λ e. lit "unable configuring base transport settings for http client " ++ e)
        (base_transport http cert)
  response ← or_fail (λ e. lit "error pinging notary server: " ++ e) (http.do_request base url)
  of_ping http names base host auth repo response

abbrev about : String → Text → Text → Text
about what role e = lit what ++ (role ++ (lit ": " ++ e))

abbrev trust_data_url : NotaryClient → Text → Text
trust_data_url nc role =
    nc.host ++ (lit "/v2/" ++ (nc.repo ++ (lit "/_trust/tuf/" ++ (role ++ lit ".json"))))

module _ (tuf : Tuf) (http : Http) where
  abbrev of_body : Text → Text ⊎ Text → (tuf.Signed × Text) ⊎ Text
  of_body role (inr e) = inr (about "error reading trust data " role e)
  of_body role (inl raw) = elim (tuf.unmarshal_signed raw) [
    | inl signed ↦ inl (signed, raw)
    | inr e ↦ inr (about "error unmarshalling trust data " role e)
  ]

  abbrev of_response : Text → Response ⊎ Text → (tuf.Signed × Text) ⊎ Text
  of_response role (inr e) = inr (about "error doing request trust data " role e)
  of_response role (inl response) =
      if response.status_code == 200
      then of_body role response.body
      else inr (about "error acquiring trust data " role response.status)

  abbrev fetched : NotaryClient → Text → Option Text → (tuf.Signed × Text) ⊎ Text
  fetched nc role (some e) = inr (about "error creating request for acquiring trust data " role e)
  fetched nc role none = of_response role (http.do_request nc.client (trust_data_url nc role))

  -- what is sent, unless the context is cancelled by then, in which case nothing is
  unfoldable pub fetch_trust_data : NotaryClient → Text → TrustData tuf
  fetch_trust_data nc role = record {
    role = role;
    content = fetched nc role (http.new_request (trust_data_url nc role));
  }
