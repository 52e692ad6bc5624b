-- ===== src/Callout/Interleaving/Quiescence.antt =====
-- internal/callout/callout.go, internal/metrics/metrics.go: what log and metrics say while calls are
-- under way, and once all of them have returned.
use nats_jwt_callout.Base.{
  ℕ, ◌+◌, ◌≡◌, sym, ap, ◌∙◌, List, [], ◌∷◌, ◌++◌, append-nil, arith, tally, tally-append,
}
use nats_jwt_callout.Callout.{Request, Packages, Times, Authorizer, authorize, reload}
use nats_jwt_callout.Callout.Accounting.{Event, requested, reloaded, handle, run, run-last_ruleset}
use nats_jwt_callout.Callout.Interleaving.{
  Effect, Pc, arrived, holding, judging, leaving, returned, Thread, advance, System, entry, Turn,
  arrives, advances, reloads, Reach, begin, later, settle,
}
use nats_jwt_callout.Callout.Interleaving.Settling.{settled, pending}
use nats_jwt_callout.Callout.Interleaving.Advancing.{run-append}
use nats_jwt_callout.Callout.Interleaving.Linear.{Reach-keeps}
use nats_jwt_callout.Callout.Interleaving.Writing.{
  written, IsEnabled, authorize-IsEnabled, written-authorize, perform-IsEnabled, left, in_flight,
  in_flight-append, later-written,
}

module _ (p : Packages) where
  advance-IsEnabled :
      (times : Times) (req : Request) (pc : Pc p) (b : Authorizer p)
      → IsEnabled p b
      → IsEnabled p (advance p times req pc b).0
  unfolding advance
  advance-IsEnabled times req arrived b h = h
  advance-IsEnabled times req (holding st) b h = h
  advance-IsEnabled times req (judging st id) b h = h
  advance-IsEnabled times req (leaving [] reply) b h = h
  advance-IsEnabled times req (leaving (e ∷ es) reply) b h = perform-IsEnabled p e b h
  advance-IsEnabled times req (returned reply) b h = h

  handle-IsEnabled : (e : Event p) (b : Authorizer p) → IsEnabled p b → IsEnabled p (handle p e b)
  unfolding handle reload
  handle-IsEnabled (requested times req) b h = authorize-IsEnabled p times req b h
  handle-IsEnabled (reloaded v policy) b h = h

  run-IsEnabled :
      (history : List (Event p)) (b : Authorizer p) → IsEnabled p b → IsEnabled p (run p history b)
  unfolding run
  run-IsEnabled [] b h = h
  run-IsEnabled (e ∷ history) b h = run-IsEnabled history (handle p e b) (handle-IsEnabled e b h)

  Turn-IsEnabled :
      {s t : System p} {new : List (Event p)}
      → Turn p s new t
      → IsEnabled p s.shared
      → IsEnabled p t.shared
  unfolding reload
  Turn-IsEnabled (arrives times req) h = h
  Turn-IsEnabled {s} (advances before after t split) h =
      advance-IsEnabled t.times t.req t.pc s.shared h
  Turn-IsEnabled (reloads v policy) h = h

  pub Reach-IsEnabled :
      {a : Authorizer p} {history : List (Event p)} {s : System p}
      → Reach p a history s
      → IsEnabled p a
      → IsEnabled p s.shared
  Reach-IsEnabled begin h = h
  Reach-IsEnabled (later r step) h = Turn-IsEnabled step (Reach-IsEnabled r h)

  load-written :
      (w : Effect → ℕ) (times : Times) (req : Request) (b r : Authorizer p)
      → IsEnabled p r
      → b.state ≡ r.state
      → b.sign_key ≡ r.sign_key
      → tally w (pending p (settled p b.sign_key times req (holding b.state))) + written p w r
        ≡ written p w (authorize p times req r).1
  load-written w times req b r h state key =
      let same_state =
        ap (λ st. tally w (pending p (settled p b.sign_key times req (holding st)))) state in
      let same_key = ap (λ k. tally w (pending p (settled p k times req (holding r.state)))) key in
      omega (arith, same_state, same_key, written-authorize p w times req r h)

  -- `b` runs a step of a call, and `r` has run everything in the history.
  advance-written :
      (w : Effect → ℕ) (times : Times) (req : Request) (pc : Pc p) (b r : Authorizer p)
      → IsEnabled p b
      → IsEnabled p r
      → b.state ≡ r.state
      → b.sign_key ≡ r.sign_key
      → written p w (advance p times req pc b).0
          + tally w (pending p (settled p b.sign_key times req (advance p times req pc b).1))
          + written p w r
        ≡ written p w b
          + tally w (pending p (settled p b.sign_key times req pc))
          + written p w (run p (entry p times req pc) r)
  unfolding run handle advance pending settled settle
  advance-written w times req arrived b r h h' state key =
      omega (arith, load-written w times req b r h' state key)
  advance-written w times req (holding st) b r h h' state key =
      omega (arith, later-written p w times req (holding st) b h (λ e. ground arith))
  advance-written w times req (judging st id) b r h h' state key =
      omega (arith, later-written p w times req (judging st id) b h (λ e. ground arith))
  advance-written w times req (leaving es reply) b r h h' state key =
      omega (arith, later-written p w times req (leaving es reply) b h (λ e. ground arith))
  advance-written w times req (returned reply) b r h h' state key =
      omega (arith, later-written p w times req (returned reply) b h (λ e. ground arith))

  tally-in_flight :
      (w : Effect → ℕ) (key : p.jwt.KeyPair) (before after : List (Thread p)) (t : Thread p)
      → tally w (in_flight p key (before ++ t ∷ after))
        ≡ tally w (in_flight p key before)
          + tally w (left p key t)
          + tally w (in_flight p key after)
  unfolding in_flight
  tally-in_flight w key before after t =
      let all = ap (tally w) (in_flight-append p key before (t ∷ after)) in
      let outer = tally-append w (in_flight p key before) (in_flight p key (t ∷ after)) in
      let inner = tally-append w (left p key t) (in_flight p key after) in
      omega (arith, all, outer, inner)

  advances-written :
      (w : Effect → ℕ) (a : Authorizer p) (history : List (Event p)) (s : System p) (t : Thread p)
      → IsEnabled p a
      → Reach p a history s
      → written p w (advance p t.times t.req t.pc s.shared).0
          + tally w
              (left p a.sign_key (record t { pc = (advance p t.times t.req t.pc s.shared).1 }))
          + written p w (run p history a)
        ≡ written p w s.shared
          + tally w (left p a.sign_key t)
          + written p w (run p (history ++ entry p t.times t.req t.pc) a)
  unfolding left
  advances-written w a history s t on r =
      let (state, key) = Reach-keeps p r in
      let (_, key') = run-last_ruleset p history a in
      let moved =
        advance-written w t.times t.req t.pc s.shared (run p history a) (Reach-IsEnabled r on)
          (run-IsEnabled history a on) state (key ∙ sym key') in
      let before = ap (λ k. tally w (pending p (settled p k t.times t.req t.pc))) key in
      let after =
        ap
          (λ k.
            tally w
              (pending p (settled p k t.times t.req (advance p t.times t.req t.pc s.shared).1)))
          key in
      let whole = ap (written p w) (run-append p history (entry p t.times t.req t.pc) a) in
      omega (arith, moved, before, after, whole)

  Turn-written :
      (w : Effect → ℕ) (a : Authorizer p) (history new : List (Event p)) (s t : System p)
      → IsEnabled p a
      → Reach p a history s
      → Turn p s new t
      → written p w s.shared + tally w (in_flight p a.sign_key s.threads)
        ≡ written p w (run p history a)
      → written p w t.shared + tally w (in_flight p a.sign_key t.threads)
        ≡ written p w (run p (history ++ new) a)
  unfolding run handle reload in_flight left pending settled settle written
  Turn-written w a history [] s _ on r (arrives times req) same = rw (append-nil history) same
  Turn-written w a history new s _ on r (advances before after t split) same =
      let now = ap (λ ts. tally w (in_flight p a.sign_key ts)) split in
      let t' = record t { pc = (advance p t.times t.req t.pc s.shared).1 } in
      omega (
        arith,
        now,
        tally-in_flight w a.sign_key before after t,
        tally-in_flight w a.sign_key before after t',
        advances-written w a history s t on r,
      )
  Turn-written w a history new s _ on r (reloads v policy) same =
      same ∙ ap (written p w) (sym (run-append p history (reloaded v policy ∷ []) a))

  -- At any point of any interleaving, the log lines and the collectors' calls that have been made
  -- and those that the calls under way have still to make are, taken together and in any weighting,
  -- those of the history when it is run one event after the other. The service has metrics.
  pub Reach-written :
      {a : Authorizer p} {history : List (Event p)} {s : System p} (w : Effect → ℕ)
      → Reach p a history s
      → IsEnabled p a
      → written p w s.shared + tally w (in_flight p a.sign_key s.threads)
        ≡ written p w (run p history a)
  unfolding run in_flight
  Reach-written w begin on = omega arith
  Reach-written {a} w (later {history} {new} {s} {t} r step) on =
      Turn-written w a history new s t on r step (Reach-written w r on)
