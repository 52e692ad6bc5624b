-- ===== src/Service/Tls.antt =====
-- cmd/nats-oidc-callout/main.go: the connection to NATS, its TLS settings, and the log level.
use nats_jwt_callout.Base.{
  ℕ, ◌≤◌, ◌≡◌, ◌⊎◌, inl, inr, ◌≢◌, false, not, ◌&&◌, ◌||◌, Option, none, some, List, [], ◌∷◌, ◌++◌,
  Str, codes, ◌==◌, if◌then◌else◌, is_empty, is_empty_iff, arith, Result, ok, err, ◌>>=◌, or_err,
  >>=-eq-ok, or_err-eq-ok, Bool-cases, Option-cases,
}
use nats_jwt_callout.Config.{NatsConfig}

-- Reading files, and the packages crypto/tls and crypto/x509.
pub record TlsPackage : Type 1 where
  pub Certificate : Type 0
  pub CertPool : Type 0
  pub read_file : Str → Option Str
  pub load_x509_key_pair : Str → Str → Option Certificate
  pub append_certs_from_pem : Str → Option CertPool

-- tls.VersionTLS12. A version is the uint16 of the protocol: 769 is TLS 1.0, 770 is 1.1, 772 is 1.3.
abbrev pub tls12 : ℕ
tls12 = 771

pub data TlsError : Type 0 where
  both_required load_certificate read_ca : TlsError
  no_ca_certificates : Str → TlsError

pub data Level : Type 0 where
  debug info warn error : Level

-- `newLogger`
unfoldable pub log_level : Str → Level
log_level level =
    if level == codes "debug"
    then debug
    else if level == codes "warn"
    then warn
    else if level == codes "error"
    then error
    else info

module _ (tls : TlsPackage) where
  pub record TlsConfig : Type 0 where
    pub min_version : ℕ
    pub certificate : Option tls.Certificate
    pub root_cas : Option tls.CertPool

  pub data ConnectOption : Type 0 where
    name : Str → ConnectOption
    user_credentials : Str → ConnectOption
    user_info : Str → Str → ConnectOption
    secure : TlsConfig → ConnectOption

  unfoldable pub client_certificate : NatsConfig → Result TlsError (Option tls.Certificate)
  client_certificate cfg =
      if not (is_empty cfg.client_cert) || not (is_empty cfg.client_key)
      then (if is_empty cfg.client_cert || is_empty cfg.client_key then err both_required else do
        cert ← or_err load_certificate (tls.load_x509_key_pair cfg.client_cert cfg.client_key)
        ok (some cert))
      else ok none

  unfoldable pub ca_pool : NatsConfig → Result TlsError (Option tls.CertPool)
  ca_pool cfg =
      if not (is_empty cfg.ca_cert)
      then (do
        pem ← or_err read_ca (tls.read_file cfg.ca_cert)
        pool ← or_err (no_ca_certificates cfg.ca_cert) (tls.append_certs_from_pem pem)
        ok (some pool))
      else ok none

  unfoldable pub tls_config : NatsConfig → Result TlsError (Option TlsConfig)
  tls_config cfg =
      if is_empty cfg.client_cert && is_empty cfg.client_key && is_empty cfg.ca_cert
      then ok none
      else do
        cert ← client_certificate cfg
        pool ← ca_pool cfg
        ok (some (record { min_version = tls12; certificate = cert; root_cas = pool }))

  abbrev login_option : NatsConfig → List ConnectOption
  login_option cfg =
      if not (is_empty cfg.credentials)
      then user_credentials cfg.credentials ∷ []
      else if not (is_empty cfg.username)
      then user_info cfg.username cfg.password ∷ []
      else []

  abbrev secure_option : Option TlsConfig → List ConnectOption
  secure_option none = []
  secure_option (some c) = secure c ∷ []

  -- The options that `connectNATS` connects with.
  unfoldable pub connect_options : NatsConfig → Result TlsError (List ConnectOption)
  connect_options cfg = do
    tls_cfg ← tls_config cfg
    ok ((name (codes "nats-oidc-callout") ∷ login_option cfg) ++ secure_option tls_cfg)

  -- The certificate is the one that is configured, with its key; neither is set without the other.
  abbrev pub CertificateOf : NatsConfig → Option tls.Certificate → Type 0
  CertificateOf cfg none = (cfg.client_cert ≡ []) × (cfg.client_key ≡ [])
  CertificateOf cfg (some cert) =
      (cfg.client_cert ≢ [])
      × (cfg.client_key ≢ [])
      × (tls.load_x509_key_pair cfg.client_cert cfg.client_key ≡ some cert)

  abbrev pub PoolOf : NatsConfig → Option tls.CertPool → Type 0
  PoolOf cfg none = cfg.ca_cert ≡ []
  PoolOf cfg (some pool) =
      (cfg.ca_cert ≢ [])
      × ((pem : Str) × (tls.read_file cfg.ca_cert ≡ some pem)
          × (tls.append_certs_from_pem pem ≡ some pool))

  -- What the outcome of `tlsConfig` says about the settings.
  abbrev pub TlsOf : NatsConfig → Option TlsConfig → Type 0
  TlsOf cfg none = (cfg.client_cert ≡ []) × (cfg.client_key ≡ []) × (cfg.ca_cert ≡ [])
  TlsOf cfg (some c) =
      (771 ≤ c.min_version)
      × CertificateOf cfg c.certificate
      × PoolOf cfg c.root_cas
      × ((cfg.client_cert ≢ []) ⊎ (cfg.ca_cert ≢ []))

  client_certificate_inv :
      (cfg : NatsConfig) (o : Option tls.Certificate)
      → client_certificate cfg ≡ ok o
      → CertificateOf cfg o
  unfolding client_certificate
  client_certificate_inv cfg none h =
      let loads = Option-cases (tls.load_x509_key_pair cfg.client_cert cfg.client_key) in
      ground (arith, is_empty_iff cfg.client_cert, is_empty_iff cfg.client_key, loads)
  client_certificate_inv cfg (some c) h =
      let loads = Option-cases (tls.load_x509_key_pair cfg.client_cert cfg.client_key) in
      ground (arith, is_empty_iff cfg.client_cert, is_empty_iff cfg.client_key, loads)

  ca_pool_inv : (cfg : NatsConfig) (o : Option tls.CertPool) → ca_pool cfg ≡ ok o → PoolOf cfg o
  unfolding ca_pool
  ca_pool_inv cfg o h = elim (Bool-cases (is_empty cfg.ca_cert)) [
    | inl unset ↦ let e : none ≡ o = ground arith in rw (← e) ((is_empty_iff cfg.ca_cert).0 unset)
    | inr set ↦
        let (pem, reading, h1) =
          >>=-eq-ok (or_err read_ca (tls.read_file cfg.ca_cert)) _ (rw (set, ca_pool) at h) in
        let (pool, parsing, h2) =
          >>=-eq-ok (or_err (no_ca_certificates cfg.ca_cert) (tls.append_certs_from_pem pem)) _
            h1 in
        let e : some pool ≡ o = ground arith in
        rw (← e) (
          (λ q. ground (arith, is_empty_iff cfg.ca_cert)),
          (pem, or_err-eq-ok _ _ reading, or_err-eq-ok _ _ parsing),
        )
  ]

  a_setting :
      (cfg : NatsConfig) (o : Option tls.Certificate)
      → CertificateOf cfg o
      → (is_empty cfg.client_cert && is_empty cfg.client_key && is_empty cfg.ca_cert) ≡ false
      → (cfg.client_cert ≢ []) ⊎ (cfg.ca_cert ≢ [])
  a_setting cfg none c h = inr (λ e.
      ground (
        arith,
        is_empty_iff cfg.client_cert,
        is_empty_iff cfg.client_key,
        is_empty_iff cfg.ca_cert,
      ))
  a_setting cfg (some cert) c h = inl c.0

  -- Where the connection has no TLS configuration, none of the three settings is given. Where it has
  -- one, its minimal version is TLS 1.2 or a later one (771 on the wire), and a setting is given; its certificate is the configured pair,
  -- with neither half missing, and its roots are the certificates of the configured file; it is without
  -- either only if the settings are.
  pub tls_config-TlsOf :
      (cfg : NatsConfig) (o : Option TlsConfig) → tls_config cfg ≡ ok o → TlsOf cfg o
  unfolding tls_config
  tls_config-TlsOf cfg o h =
      elim (Bool-cases
        (is_empty cfg.client_cert && is_empty cfg.client_key && is_empty cfg.ca_cert)) [
          | inl unset ↦
              let e : none ≡ o = ground arith in
              rw (← e) (
                ground (
                  arith,
                  is_empty_iff cfg.client_cert,
                  is_empty_iff cfg.client_key,
                  is_empty_iff cfg.ca_cert,
                ))
          | inr set ↦
              let (cert, certified, h1) =
                >>=-eq-ok (client_certificate cfg) _ (rw (set, tls_config) at h) in
              let (pool, pooled, h2) = >>=-eq-ok (ca_pool cfg) _ h1 in
              let e : some (record { min_version = tls12; certificate = cert; root_cas = pool })
                  ≡ o =
                ground arith in
              let c = client_certificate_inv cfg cert certified in
              rw (← e) (omega arith, c, ca_pool_inv cfg pool pooled, a_setting cfg cert c set)
        ]
