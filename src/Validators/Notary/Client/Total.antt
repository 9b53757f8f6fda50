-- ===== src/Validators/Notary/Client/Total.antt =====
-- The creation of a client does not panic where the host is a registry.
use connaisseur.Prelude.{
  ◌≡◌, sym, subst, ◌≢◌, not, ◌++◌, Text, lit, ◌==◌, is_empty, >>=-no_panic, map_err-no_panic,
  ok-no_panic, err-no_panic, if-no_panic, ok, panic, map_err,
}
use connaisseur.Image.{Image}
use connaisseur.Image.Registry.{NameChecks, RegistryRepo, new_registry_repo}
use connaisseur.Validators.Auth.{Auth}
use connaisseur.Validators.Notary.{or_fail, check}
use connaisseur.Validators.Notary.Client.{
  Response, Transport, Http, tls_config, base_transport, with_registry, build_auth_transport,
  of_ping, new_notary_client,
}
use connaisseur.Validators.Notary.Calls.{or_fail-no_panic, check-no_panic}

module _ (http : Http) (names : NameChecks) where
  tls_config-no_panic : (cert : Text) → tls_config http cert ≢ panic
  unfolding tls_config
  tls_config-no_panic cert =
      if-no_panic (not (is_empty cert)) _ _
        (if-no_panic (http.append_certs cert) _ _ (ok-no_panic _) (err-no_panic _)) (ok-no_panic _)

  base_transport-no_panic : (cert : Text) → base_transport http cert ≢ panic
  unfolding base_transport
  base_transport-no_panic cert =
      >>=-no_panic (map_err _ (tls_config http cert)) _
        (map_err-no_panic _ (tls_config http cert) (tls_config-no_panic cert))
        (λ root_ca q. ok-no_panic _)

  build_auth_transport-no_panic :
      (base : Transport) (host : Text) (auth : Auth) (repo : Text) (rr : RegistryRepo)
      → new_registry_repo names host ≡ ok rr
      → build_auth_transport names base host auth repo ≢ panic
  unfolding build_auth_transport
  build_auth_transport-no_panic base host auth repo rr h =
      subst (λ r. with_registry base auth repo r ≢ panic) (sym h) (ok-no_panic _)

  of_ping-no_panic :
      (base : Transport) (host : Text) (auth : Auth) (repo : Text) (response : Response)
      (rr : RegistryRepo)
      → new_registry_repo names host ≡ ok rr
      → of_ping http names base host auth repo response ≢ panic
  unfolding of_ping
  of_ping-no_panic base host auth repo response rr h =
      if-no_panic (response.status_code == 401) _ _
        (>>=-no_panic (check _ (http.add_response response)) _
          (check-no_panic _ (http.add_response response))
          (λ u q.
            >>=-no_panic (build_auth_transport names base host auth repo) _
              (build_auth_transport-no_panic base host auth repo rr h) (λ t q. ok-no_panic _)))
        (ok-no_panic _)

  -- A client is created, or an error is returned, where the host is a registry.
  pub new_notary_client-no_panic :
      (host cert : Text) (auth : Auth) (img : Image) (rr : RegistryRepo)
      → new_registry_repo names host ≡ ok rr
      → new_notary_client http names host cert auth img ≢ panic
  unfolding new_notary_client
  new_notary_client-no_panic host cert auth img rr h =
      let url = host ++ lit "/v2/" in
      >>=-no_panic (check _ (http.new_request url)) _ (check-no_panic _ (http.new_request url))
        (λ u q.
          >>=-no_panic (map_err _ (base_transport http cert)) _
            (map_err-no_panic _ (base_transport http cert) (base_transport-no_panic cert))
            (λ base q.
              >>=-no_panic (or_fail _ (http.do_request base url)) _
                (or_fail-no_panic _ (http.do_request base url))
                (λ response q. of_ping-no_panic base host auth _ response rr h)))
