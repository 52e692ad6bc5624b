-- ===== src/Service/Latest.antt =====
-- cmd/nats-oidc-callout/main.go: which of the configurations that a service has met it serves.
use nats_jwt_callout.Base.{◌≡◌, refl, ◌∙◌, ◌⊎◌, inl, inr, List, [], ◌∷◌, ◌++◌, Str, ok, err}
use nats_jwt_callout.Verifier.{Verifier}
use nats_jwt_callout.Config.{ConfigError, load}
use nats_jwt_callout.Config.Loading.{load-IsLoaded}
use nats_jwt_callout.Callout
use nats_jwt_callout.Callout.{Packages, Authorizer, reload}
use nats_jwt_callout.Callout.Accounting.{authorize-keeps}
use nats_jwt_callout.Service.Starting.{start-Starts}
use nats_jwt_callout.Service.{
  BuildError, World, Watch, Cfg, Startup, build_verifier, start, Event, requested, hangup, handle,
  run,
}
use nats_jwt_callout.Service.Reloading.{IsServing, Round, kept, swapped, on_hangup-Round}

module _ (p : Packages) (path : Str) where
  -- No configuration comes of what is found there: it does not load, or has no verifier.
  abbrev pub IsRefused : World p.oidc → Type 0
  IsRefused w =
      ((e : ConfigError) × (load p.regexp p.cel w.files path ≡ err e))
      ⊎ ((cfg : Cfg p) × (e : BuildError) × (load p.regexp p.cel w.files path ≡ ok cfg)
          × (build_verifier p.oidc w cfg ≡ err e))

  -- Every SIGHUP among the events is refused.
  abbrev pub AllRefused : List (Event p) → Type 0
  AllRefused [] = Unit
  AllRefused (requested times req ∷ events) = AllRefused events
  AllRefused (hangup w ∷ events) = IsRefused w × AllRefused events

  -- What the last SIGHUP has found that was not refused, or the start where each was refused.
  pub data IsLatest (w : World p.oidc) (events : List (Event p)) (latest : World p.oidc)
      : Type 0 where
    from_start : latest ≡ w → AllRefused events → IsLatest w events latest
    from_hangup :
        (before after : List (Event p))
        → events ≡ before ++ hangup latest ∷ after
        → AllRefused after
        → IsLatest w events latest

  -- The service has the configuration that is loaded from what was found there, the verifier that is
  -- built of it, and its policy.
  pub record IsServed (world : World p.oidc) (s : Watch p) : Type 0 where
    pub verifier : Verifier p.oidc.TokenVerifier
    pub loaded : load p.regexp p.cel world.files path ≡ ok s.current
    pub built : build_verifier p.oidc world s.current ≡ ok verifier
    pub served : s.authorizer.state ≡ record { verifier = verifier; policy = s.current.policy }

  pub record ServesLatest (w : World p.oidc) (events : List (Event p)) (s : Watch p) : Type 0 where
    pub world : World p.oidc
    pub latest : IsLatest w events world
    pub serves : IsServed world s

  pub IsServed-IsServing : {w : World p.oidc} {s : Watch p} → IsServed w s → IsServing p path s
  IsServed-IsServing {w} {s} i = record {
    world = w;
    verifier = i.verifier;
    loaded = load-IsLoaded p.regexp p.cel w.files path i.loaded;
    built = i.built;
    served = i.served;
  }

  swapped_state :
      (cfg : Cfg p) (v : Verifier p.oidc.TokenVerifier) (a : Authorizer p)
      → (reload p v cfg.policy a).state ≡ record { verifier = v; policy = cfg.policy }
  unfolding reload
  swapped_state cfg v a = refl

  -- After one SIGHUP: what it found is served, or it is refused and what was served still is.
  Round-IsServed :
      {w w' : World p.oidc} {s s' : Watch p}
      → Round p path w' s s'
      → IsServed w s
      → IsServed w' s' ⊎ (IsRefused w' × IsServed w s')
  Round-IsServed (kept lines reason e) i = inr (
    reason,
    rw e (record { verifier = i.verifier; loaded = i.loaded; built = i.built; served = i.served }),
  )
  Round-IsServed {s} (swapped cfg v loaded built e e' log) i = inl (record {
    verifier = v;
    loaded = rw e loaded;
    built = rw e built;
    served = rw (e, e') (swapped_state cfg v s.authorizer);
  })

  requested-IsServed :
      {w : World p.oidc} (times : Callout.Times) (req : Callout.Request) (s : Watch p)
      → IsServed w s
      → IsServed w (handle p path (requested times req) s)
  unfolding handle
  requested-IsServed times req s i = record {
    verifier = i.verifier;
    loaded = i.loaded;
    built = i.built;
    served = (authorize-keeps p times req s.authorizer).0 ∙ i.served;
  }

  hangup-IsServed :
      {w : World p.oidc} (w' : World p.oidc) (s : Watch p)
      → IsServed w s
      → IsServed w' (handle p path (hangup w') s)
        ⊎ (IsRefused w' × IsServed w (handle p path (hangup w') s))
  unfolding handle
  hangup-IsServed w' s i = Round-IsServed (on_hangup-Round p path w' s) i

  -- The events before the ones that are still to come.
  IsLatest-after_hangup :
      (w w' latest : World p.oidc) (events : List (Event p))
      → IsLatest w' events latest
      → IsLatest w (hangup w' ∷ events) latest
  IsLatest-after_hangup w w' latest events (from_start same refused) =
      from_hangup [] events (rw same refl) refused
  IsLatest-after_hangup w w' latest events (from_hangup before after split refused) =
      from_hangup (hangup w' ∷ before) after (rw split refl) refused

  IsLatest-refused :
      (w w' latest : World p.oidc) (events : List (Event p))
      → IsRefused w'
      → IsLatest w events latest
      → IsLatest w (hangup w' ∷ events) latest
  IsLatest-refused w w' latest events r (from_start same refused) = from_start same (r, refused)
  IsLatest-refused w w' latest events r (from_hangup before after split refused) =
      from_hangup (hangup w' ∷ before) after (rw split refl) refused

  IsLatest-requested :
      (w latest : World p.oidc) (times : Callout.Times) (req : Callout.Request)
      (events : List (Event p))
      → IsLatest w events latest
      → IsLatest w (requested times req ∷ events) latest
  IsLatest-requested w latest times req events (from_start same refused) = from_start same refused
  IsLatest-requested w latest times req events (from_hangup before after split refused) =
      from_hangup (requested times req ∷ before) after (rw split refl) refused

  run-ServesLatest_from :
      (w : World p.oidc) (events : List (Event p)) (s : Watch p)
      → IsServed w s
      → ServesLatest w events (run p path events s)
  unfolding run
  run-ServesLatest_from w [] s i = record { world = w; latest = from_start refl tt; serves = i }
  run-ServesLatest_from w (requested times req ∷ events) s i =
      let rest =
        run-ServesLatest_from w events (handle p path (requested times req) s)
          (requested-IsServed times req s i) in
      record {
        world = rest.world;
        latest = IsLatest-requested w rest.world times req events rest.latest;
        serves = rest.serves;
      }
  run-ServesLatest_from w (hangup w' ∷ events) s i =
      let next = handle p path (hangup w') s in
      elim (hangup-IsServed w' s i) [
        | inl served ↦
            let rest = run-ServesLatest_from w' events next served in
            record {
              world = rest.world;
              latest = IsLatest-after_hangup w w' rest.world events rest.latest;
              serves = rest.serves;
            }
        | inr (refused, still) ↦
            let rest = run-ServesLatest_from w events next still in
            record {
              world = rest.world;
              latest = IsLatest-refused w w' rest.world events refused rest.latest;
              serves = rest.serves;
            }
      ]

  start-IsServed :
      (env : Startup p) (w : World p.oidc) {s : Watch p} → start p env w path ≡ ok s → IsServed w s
  unfolding Callout.new
  start-IsServed env w {s} h =
      let t = start-Starts p env w path h in
      rw t.watch
        (record { verifier = t.verifier; loaded = t.loaded; built = t.built; served = refl })

  -- After any requests and SIGHUPs, a service that has started serves what the last SIGHUP found for
  -- which the configuration loads and a verifier can be built, or what the start found if there was no
  -- such SIGHUP. What it serves, and compares the next reload with, is one result of `Load` on the
  -- files found then, the verifier built of that result with the answers to discovery at that time,
  -- and the policy in it.
  pub run-ServesLatest :
      (env : Startup p) (w : World p.oidc) {s : Watch p}
      → start p env w path ≡ ok s
      → (events : List (Event p)) → ServesLatest w events (run p path events s)
  run-ServesLatest env w {s} h events = run-ServesLatest_from w events s (start-IsServed env w h)
