-- ===== src/Service/Reloading.antt =====
-- cmd/nats-oidc-callout/main.go: what a running service serves after reloads that succeed or fail.
use nats_jwt_callout.Base.{
  Result-cases, ◌≡◌, refl, ◌⊎◌, ◌↔◌, inl, inr, Bool, true, false, not, ◌||◌, List, [], ◌∷◌, ◌++◌,
  map, Str, ◌==◌, ==_iff, arith, ok, err,
}
use nats_jwt_callout.Verifier.{Verifier}
use nats_jwt_callout.Config.{NatsConfig, MetricsConfig, Config, ConfigError, load}
use nats_jwt_callout.Config.Loading.{IsLoaded}
use nats_jwt_callout.Callout.{Packages, reload}
use nats_jwt_callout.Service.{
  BuildError, Warning, World, Watch, Cfg, same_bool, same_nats, same_metrics, warn_if,
  warn_unreloadable, build_verifier, on_hangup, ReloadLine, warned, hangup_received, load_failed,
  build_failed, config_reloaded,
}

same_bool_iff : (a b : Bool) → (same_bool a b ≡ true) ↔ (a ≡ b)
same_bool_iff true b = ground arith
same_bool_iff false b = ground arith

same_nats_iff : (a b : NatsConfig) → (same_nats a b ≡ true) ↔ (a ≡ b)
unfolding same_nats
same_nats_iff a b = ground (
  arith,
  ==_iff a.url b.url,
  ==_iff a.credentials b.credentials,
  ==_iff a.username b.username,
  ==_iff a.password b.password,
  ==_iff a.ca_cert b.ca_cert,
  ==_iff a.client_cert b.client_cert,
  ==_iff a.client_key b.client_key,
)

same_metrics_iff : (a b : MetricsConfig) → (same_metrics a b ≡ true) ↔ (a ≡ b)
unfolding same_metrics
same_metrics_iff a b =
    ground
      (arith, same_bool_iff a.enabled b.enabled, ==_iff a.address b.address, ==_iff a.path b.path)

-- No setting that needs a restart differs.
pub record SameFixed {P : Type 0} (old new : Config P) : Type 0 where
  pub nats : old.nats ≡ new.nats
  pub account_seed : old.issuer_account_seed ≡ new.issuer_account_seed
  pub xkey_seed : old.xkey_seed ≡ new.xkey_seed
  pub metrics : old.metrics ≡ new.metrics

no_warning :
    (a b c d : Bool)
    → (warn_if (not a) Warning.nats_changed
          ++ warn_if (not b || not c) Warning.seeds_changed
          ++ warn_if (not d) Warning.metrics_changed
        ≡ [])
      ↔ ((a ≡ true) × (b ≡ true) × (c ≡ true) × (d ≡ true))
no_warning a b c d = ground arith

-- A reload warns of nothing exactly if it changes no setting that needs a restart: the connection, the
-- two seeds, the metrics endpoint.
pub warn_unreloadable-eq-nil_iff :
    {P : Type 0} (old new : Config P) → (warn_unreloadable old new ≡ []) ↔ SameFixed old new
unfolding warn_unreloadable
warn_unreloadable-eq-nil_iff old new =
    let silent =
      no_warning (same_nats old.nats new.nats) (old.issuer_account_seed == new.issuer_account_seed)
        (old.xkey_seed == new.xkey_seed) (same_metrics old.metrics new.metrics) in
    let nats = same_nats_iff old.nats new.nats in
    let account = ==_iff old.issuer_account_seed new.issuer_account_seed in
    let xkey = ==_iff old.xkey_seed new.xkey_seed in
    let metrics = same_metrics_iff old.metrics new.metrics in
    (
      λ h.
          let (a, b, c, d) = silent.0 h in
          record {
            nats = nats.0 a;
            account_seed = account.0 b;
            xkey_seed = xkey.0 c;
            metrics = metrics.0 d;
          },
      λ s.
          silent.1
            (nats.1 s.nats, account.1 s.account_seed, xkey.1 s.xkey_seed, metrics.1 s.metrics),
    )

module _ (p : Packages) (path : Str) where
  -- The served ruleset is a verifier and the policy of one configuration, which was loaded whole and
  -- is the one that the next reload is compared with.
  pub record IsServing (s : Watch p) : Type 0 where
    pub world : World p.oidc
    pub verifier : Verifier p.oidc.TokenVerifier
    pub loaded : IsLoaded p.regexp p.cel world.files path s.current
    pub built : build_verifier p.oidc world s.current ≡ ok verifier
    pub served : s.authorizer.state ≡ record { verifier = verifier; policy = s.current.policy }

  -- One SIGHUP.
  pub data Round (w : World p.oidc) (s s' : Watch p) : Type 0 where
    kept :
        (lines : List ReloadLine)
        → ((e : ConfigError) × (load p.regexp p.cel w.files path ≡ err e))
          ⊎ ((cfg : Cfg p) × (e : BuildError) × (load p.regexp p.cel w.files path ≡ ok cfg)
              × (build_verifier p.oidc w cfg ≡ err e))
        → s' ≡ record s { log = s.log ++ lines }
        → Round w s s'
    swapped :
        (cfg : Cfg p) (v : Verifier p.oidc.TokenVerifier)
        → load p.regexp p.cel w.files path ≡ ok cfg
        → build_verifier p.oidc w cfg ≡ ok v
        → s'.current ≡ cfg
        → s'.authorizer ≡ reload p v cfg.policy s.authorizer
        → s'.log
          ≡ s.log
            ++ ((hangup_received ∷ map warned (warn_unreloadable s.current cfg))
                ++ config_reloaded ∷ [])
        → Round w s s'

  pub on_hangup-Round : (w : World p.oidc) (s : Watch p) → Round w s (on_hangup p path w s)
  unfolding on_hangup
  on_hangup-Round w s = elim (Result-cases (load p.regexp p.cel w.files path)) [
    | inl (e, failed) ↦
        rw failed (kept (hangup_received ∷ load_failed e ∷ []) (inl (e, failed)) refl)
    | inr (cfg, loaded) ↦ elim (Result-cases (build_verifier p.oidc w cfg)) [
      | inl (e, failed) ↦
          rw (loaded, failed)
            (kept
              ((hangup_received ∷ map warned (warn_unreloadable s.current cfg))
                ++ build_failed e ∷ [])
              (inr (cfg, e, loaded, failed)) refl)
      | inr (v, built) ↦ rw (loaded, built) (swapped cfg v loaded built refl refl refl)
    ]
  ]
