-- ===== src/Service/Process.antt =====
-- cmd/nats-oidc-callout/main.go: the process, from its flags to its exit code. The NATS micro service of
-- synadia-io/callout.go is a parameter.
use nats_jwt_callout.Base.{
  ℕ, ◌≡◌, ◌≢◌, ◌⊎◌, ◌↔◌, refl, sym, ap, ◌∙◌, inl, inr, Bool, true, false, ◌||◌, Option, none, some,
  List, [], ◌∷◌, ◌++◌, Str, if◌then◌else◌, is_empty, is_empty_iff, is_empty-false_iff, is_some,
  arith, Result, ok, err, ◌>>=◌, wrap_err, >>=-eq-ok, wrap_err-eq-ok, Bool-cases, Option-cases,
}
use nats_jwt_callout.Callout
use nats_jwt_callout.Callout.{Packages, Authorizer}
use nats_jwt_callout.Service.Starting.{Starts, start-Starts, Starts-start}
use nats_jwt_callout.Service.{StartError, World, Watch, Startup, Cfg, start}

-- The exit code, after the flags are parsed: `-version` comes first, then a missing `-config`.
unfoldable pub main {ℓ} : {E : Type ℓ} → Bool → Str → Result E (Unit {0}) → ℕ
main show_version config_path outcome =
    if show_version
    then 0
    else if is_empty config_path
    then 2
    else elim outcome [ ok _ ↦ 0 | err _ ↦ 1 ]

main-eq-zero :
    {E : Type 0} (path : Str) (outcome : Result E (Unit {0}))
    → is_empty path ≡ false
    → main false path outcome ≡ 0
    → outcome ≡ ok tt
unfolding main
main-eq-zero path (ok _) named h = refl
main-eq-zero path (err e) named h = let failed = rw named at h in absurd (ground arith)

module _ (p : Packages) where
  pub data CalloutOption : Type 0 where
    authorizer : CalloutOption
    response_signer_key encryption_key : p.jwt.KeyPair → CalloutOption

  abbrev with_xkey : Option p.jwt.KeyPair → List CalloutOption → List CalloutOption
  with_xkey none opts = opts
  with_xkey (some key) opts = opts ++ encryption_key key ∷ []

  unfoldable pub callout_options : p.jwt.KeyPair → Option p.jwt.KeyPair → List CalloutOption
  callout_options sign_key xkey = with_xkey xkey (authorizer ∷ response_signer_key sign_key ∷ [])

  -- The key for encryption, if the configuration has a seed for it.
  abbrev pub xkey_of : Startup p → Cfg p → Option p.jwt.KeyPair
  xkey_of env cfg = if is_empty cfg.xkey_seed then none else env.from_seed cfg.xkey_seed

  pub data RunError : Type 0 where
    not_started : StartError → RunError
    service_failed : RunError

  -- `run`. `new_service` says whether callout.NewAuthorizationService succeeds.
  unfoldable pub run_service :
      Startup p → World p.oidc → (List CalloutOption → Bool) → Str → Result RunError (Unit {0})
  run_service env w new_service path = do
    s ← wrap_err not_started (start p env w path)
    if new_service (callout_options s.authorizer.sign_key (xkey_of env s.current))
        then ok tt
        else err service_failed

  -- The options that a configuration asks for, given the key of its account.
  abbrev pub OptionsOf : Startup p → Cfg p → p.jwt.KeyPair → List CalloutOption → Type 0
  OptionsOf env cfg key options =
      ((cfg.xkey_seed ≡ []) × (options ≡ authorizer ∷ response_signer_key key ∷ []))
      ⊎ ((xkey : p.jwt.KeyPair) × (cfg.xkey_seed ≢ [])
          × (env.from_seed cfg.xkey_seed ≡ some xkey)
          × (options ≡ authorizer ∷ response_signer_key key ∷ encryption_key xkey ∷ []))

  callout_options-OptionsOf :
      (env : Startup p) (cfg : Cfg p) (key : p.jwt.KeyPair)
      → (is_empty cfg.xkey_seed || is_some (env.from_seed cfg.xkey_seed)) ≡ true
      → OptionsOf env cfg key (callout_options key (xkey_of env cfg))
  unfolding callout_options
  callout_options-OptionsOf env cfg key h = elim (Bool-cases (is_empty cfg.xkey_seed)) [
    | inl unset ↦ inl ((is_empty_iff cfg.xkey_seed).0 unset, rw unset refl)
    | inr set ↦ elim (Option-cases (env.from_seed cfg.xkey_seed)) [
      | inl bad ↦ let refused = rw (set, bad) at h in absurd (cc)
      | inr (xkey, found) ↦
          inr (xkey, (is_empty-false_iff cfg.xkey_seed).0 set, found, rw (set, found) refl)
    ]
  ]

  OptionsOf-callout_options :
      (env : Startup p) (cfg : Cfg p) (key : p.jwt.KeyPair) (options : List CalloutOption)
      → OptionsOf env cfg key options
      → callout_options key (xkey_of env cfg) ≡ options
  unfolding callout_options
  OptionsOf-callout_options env cfg key options (inl (unset, e)) =
      rw ((is_empty_iff cfg.xkey_seed).1 unset) (sym e)
  OptionsOf-callout_options env cfg key options (inr (xkey, set, found, e)) =
      rw ((is_empty-false_iff cfg.xkey_seed).1 set, found) (sym e)

  -- The callout service is up, with the options that the configuration asks for.
  pub record Runs (env : Startup p) (w : World p.oidc) (new_service : List CalloutOption → Bool)
      (path : Str) : Type 0 where
    pub watch : Watch p
    pub starts : Starts p env w path watch
    pub options : List CalloutOption
    pub asked : OptionsOf env starts.cfg starts.key options
    pub accepted : new_service options ≡ true

  -- The options are made of the key and the configuration that the start has found.
  started_options :
      (env : Startup p) (w : World p.oidc) (path : Str) (s : Watch p) (t : Starts p env w path s)
      → callout_options s.authorizer.sign_key (xkey_of env s.current)
        ≡ callout_options t.key (xkey_of env t.cfg)
  unfolding Callout.new
  started_options env w path s t =
      ap (λ (u : Watch p). callout_options u.authorizer.sign_key (xkey_of env u.current)) t.watch

  run_service-Runs :
      (env : Startup p) (w : World p.oidc) (new_service : List CalloutOption → Bool) (path : Str)
      → run_service env w new_service path ≡ ok tt
      → Runs env w new_service path
  unfolding run_service
  run_service-Runs env w new_service path h =
      let (s, started, h1) = >>=-eq-ok (wrap_err not_started (start p env w path)) _ h in
      let t = start-Starts p env w path (wrap_err-eq-ok not_started _ started) in
      elim (Bool-cases
        (new_service (callout_options s.authorizer.sign_key (xkey_of env s.current)))) [
          | inl accepted ↦ record {
            watch = s;
            starts = t;
            options = callout_options t.key (xkey_of env t.cfg);
            asked = callout_options-OptionsOf env t.cfg t.key t.xkey;
            accepted = ap new_service (sym (started_options env w path s t)) ∙ accepted;
          }
          | inr refused ↦ let failed = rw refused at h1 in absurd (cc)
        ]

  Runs-run_service :
      (env : Startup p) (w : World p.oidc) (new_service : List CalloutOption → Bool) (path : Str)
      → Runs env w new_service path
      → run_service env w new_service path ≡ ok tt
  unfolding run_service
  Runs-run_service env w new_service path r =
      let same =
        started_options env w path r.watch r.starts
        ∙ OptionsOf-callout_options env r.starts.cfg r.starts.key r.options r.asked in
      rw (Starts-start p env w path r.starts, same, r.accepted) refl

  -- The process exits with 0 exactly if it is asked for its version, or it is given a configuration
  -- path and gets to a running service: the configuration loads, the seeds are keys, the verifier is
  -- built, the metrics endpoint listens if it is enabled, NATS is connected to, and the callout service
  -- accepts its options, which have an encryption key exactly if there is a seed for one.
  pub main-Runs :
      (env : Startup p) (w : World p.oidc) (new_service : List CalloutOption → Bool)
      (show_version : Bool) (path : Str)
      → (main show_version path (run_service env w new_service path) ≡ 0)
        ↔ ((show_version ≡ true) ⊎ ((path ≢ []) × Runs env w new_service path))
  unfolding main
  main-Runs env w new_service true path = ((λ h. inl refl), λ r. refl)
  main-Runs env w new_service false path = elim (Bool-cases (is_empty path)) [
    | inl missing ↦ (
      (λ h. let refused = rw missing at h in absurd (ground arith)),
      (λ r. elim r [
        | inl e ↦ absurd (cc)
        | inr (named, _) ↦ absurd (named ((is_empty_iff path).0 missing))
      ]),
    )
    | inr named ↦ (
      (λ h. inr (
        (is_empty-false_iff path).0 named,
        run_service-Runs env w new_service path (main-eq-zero path _ named h),
      )),
      (λ r. elim r [
        | inl e ↦ absurd (cc)
        | inr (_, runs) ↦ rw (named, Runs-run_service env w new_service path runs) refl
      ]),
    )
  ]
