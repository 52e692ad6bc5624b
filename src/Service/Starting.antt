-- ===== src/Service/Starting.antt =====
-- cmd/nats-oidc-callout/main.go: what it takes for `run` to get to a running service.
use nats_jwt_callout.Base.{
  ◌≡◌, refl, sym, ap, Bool, true, false, not, ◌||◌, some, [], Str, is_empty, is_some, arith, ok,
  wrap_err, or_err, >>=-eq-ok, or_err-eq-ok, wrap_err-eq-ok,
}
use nats_jwt_callout.Verifier.{Verifier}
use nats_jwt_callout.Config.{load}
use nats_jwt_callout.Callout
use nats_jwt_callout.Callout.{Packages, Authorizer}
use nats_jwt_callout.Service.Tls.{connect_options}
use nats_jwt_callout.Service.{
  StartError, World, build_verifier, Watch, Startup, Cfg, connected, metrics_of, require, start,
  load_error, build_error, account_seed, xkey_seed, metrics_listen, nats_connect,
}

module _ (p : Packages) where
  -- What a start needs, in the order in which it is asked for.
  pub record Starts (env : Startup p) (w : World p.oidc) (path : Str) (s : Watch p) : Type 0 where
    pub cfg : Cfg p
    pub key : p.jwt.KeyPair
    pub verifier : Verifier p.oidc.TokenVerifier
    pub loaded : load p.regexp p.cel w.files path ≡ ok cfg
    pub seed : env.from_seed cfg.issuer_account_seed ≡ some key
    pub xkey : (is_empty cfg.xkey_seed || is_some (env.from_seed cfg.xkey_seed)) ≡ true
    pub built : build_verifier p.oidc w cfg ≡ ok verifier
    pub listens : (not cfg.metrics.enabled || env.listen cfg.metrics.address) ≡ true
    pub connects : connected p env cfg.nats.url (connect_options env.tls cfg.nats) ≡ true
    pub watch : s ≡ record {
      current = cfg;
      authorizer = Callout.new p verifier cfg.policy key (metrics_of p cfg.metrics);
      log = [];
    }

  require-true : (e : StartError) (b : Bool) {u : Unit {0}} → require p e b ≡ ok u → b ≡ true
  require-true e true h = refl
  require-true e false h = absurd (cc)

  pub start-Starts :
      (env : Startup p) (w : World p.oidc) (path : Str) {s : Watch p}
      → start p env w path ≡ ok s
      → Starts env w path s
  unfolding start
  start-Starts env w path {s} h =
      let (cfg, loading, h1) =
        >>=-eq-ok (wrap_err load_error (load p.regexp p.cel w.files path)) _ h in
      let (key, seed, h2) =
        >>=-eq-ok (or_err account_seed (env.from_seed cfg.issuer_account_seed)) _ h1 in
      let (_, xkey, h3) =
        >>=-eq-ok
          (require p xkey_seed (is_empty cfg.xkey_seed || is_some (env.from_seed cfg.xkey_seed))) _
          h2 in
      let (v, building, h4) = >>=-eq-ok (wrap_err build_error (build_verifier p.oidc w cfg)) _ h3 in
      let (_, listens, h5) =
        >>=-eq-ok
          (require p metrics_listen (not cfg.metrics.enabled || env.listen cfg.metrics.address)) _
          h4 in
      let (_, connects, h6) =
        >>=-eq-ok
          (require p nats_connect (connected p env cfg.nats.url (connect_options env.tls cfg.nats)))
          _ h5 in
      record {
        cfg = cfg;
        key = key;
        verifier = v;
        loaded = wrap_err-eq-ok load_error _ loading;
        seed = or_err-eq-ok account_seed _ seed;
        xkey = require-true xkey_seed _ xkey;
        built = wrap_err-eq-ok build_error _ building;
        listens = require-true metrics_listen _ listens;
        connects = require-true nats_connect _ connects;
        watch = ground (arith, h6);
      }

  pub Starts-start :
      (env : Startup p) (w : World p.oidc) (path : Str) {s : Watch p}
      → Starts env w path s
      → start p env w path ≡ ok s
  unfolding start
  Starts-start env w path {s} t =
      rw (t.loaded, t.seed, t.xkey, t.built, t.listens, t.connects) (ap ok (sym t.watch))
