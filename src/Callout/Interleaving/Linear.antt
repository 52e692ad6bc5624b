-- ===== src/Callout/Interleaving/Linear.antt =====
-- internal/callout/callout.go: what a call answers when others and reloads run between its steps.
use nats_jwt_callout.Base.{
  ◌≡◌, refl, sym, ap, ◌∙◌, List, [], ◌∷◌, ◌++◌, append-nil, All, arith, All-append, All-append_left,
  All-append_right, inl, inr,
}
use mathlib.Core.Path.{subst}
use nats_jwt_callout.Callout.{Request, Packages, Times, Authorizer, authorize, reload}
use nats_jwt_callout.Callout.Accounting.{Event, requested, handle, run, authorize-keeps}
use nats_jwt_callout.Callout.Interleaving.{
  Reply, Pc, arrived, holding, judging, leaving, returned, Thread, System, entry, Turn, arrives,
  advances, reloads, Reach, begin, later, settle,
}
use nats_jwt_callout.Callout.Interleaving.Settling.{settled, reply_of}
use nats_jwt_callout.Callout.Interleaving.Advancing.{run-append, advance-sign_key}
use nats_jwt_callout.Callout.Interleaving.Places.{IsPlaced, All-IsPlaced-append, advance-HasPlace}

module _ (p : Packages) where
  record IsLinear (a : Authorizer p) (history : List (Event p)) (s : System p) : Type 0 where
    state : s.shared.state ≡ (run p history a).state
    key : s.shared.sign_key ≡ a.sign_key
    threads : All (IsPlaced p a history) s.threads

  -- A step adds to the history what changes the state of the authorizer that runs it at once.
  entry-state :
      (times : Times) (req : Request) (pc : Pc p) (b : Authorizer p)
      → (run p (entry p times req pc) b).state ≡ b.state
  unfolding run handle
  entry-state times req arrived b = (authorize-keeps p times req b).0
  entry-state times req (holding st) b = refl
  entry-state times req (judging st id) b = refl
  entry-state times req (leaving effects reply) b = refl
  entry-state times req (returned reply) b = refl

  Turn-IsLinear :
      (a : Authorizer p) (history new : List (Event p)) (s t : System p)
      → Turn p s new t
      → IsLinear a history s
      → IsLinear a (history ++ new) t
  unfolding reload run handle
  Turn-IsLinear a history [] s _ (arrives times req) l = record {
    state = rw (append-nil history) l.state;
    key = l.key;
    threads = (inl refl, All-IsPlaced-append p a history [] s.threads l.threads);
  }
  Turn-IsLinear a history new s _ (advances before after t split) l =
      let (state, key) = advance-sign_key p t.times t.req t.pc s.shared in
      let at_work = subst (All (IsPlaced p a history)) split l.threads in
      let here = All-append_right (IsPlaced p a history) before (t ∷ after) at_work in
      record {
        state =
            state
            ∙ l.state
            ∙ sym (entry-state t.times t.req t.pc (run p history a))
            ∙ ap (λ c. c.state) (sym (run-append p history new a));
        key = key ∙ l.key;
        threads =
            All-append (IsPlaced p a (history ++ new)) before _
              (All-IsPlaced-append p a history new before
                (All-append_left (IsPlaced p a history) before (t ∷ after) at_work))
              (
                inr (advance-HasPlace p a s.shared history t.times t.req t.pc l.state l.key here.0),
                All-IsPlaced-append p a history new after here.1,
              );
      }
  Turn-IsLinear a history new s _ (reloads v policy) l = record {
    state = ap (λ c. c.state) (sym (run-append p history new a));
    key = l.key;
    threads = All-IsPlaced-append p a history new s.threads l.threads;
  }

  Reach-IsLinear :
      {a : Authorizer p} {history : List (Event p)} {s : System p}
      → Reach p a history s
      → IsLinear a history s
  unfolding run
  Reach-IsLinear begin = record { state = refl; key = refl; threads = tt }
  Reach-IsLinear {a} (later {history} {new} {s} {t} r step) =
      Turn-IsLinear a history new s t step (Reach-IsLinear r)

  -- The ruleset in force is that of the last reload, whatever calls are under way.
  pub Reach-keeps :
      {a : Authorizer p} {history : List (Event p)} {s : System p}
      → Reach p a history s
      → (s.shared.state ≡ (run p history a).state) × (s.shared.sign_key ≡ a.sign_key)
  Reach-keeps r = let l = Reach-IsLinear r in (l.state, l.key)

  -- The request stands in the history, and `reply` is what it gets there.
  pub record IsAnswered (a : Authorizer p) (history : List (Event p)) (t : Thread p)
      (answer : Reply) : Type 0 where
    pub before : List (Event p)
    pub after : List (Event p)
    pub split : history ≡ before ++ requested t.times t.req ∷ after
    pub reply : answer ≡ (authorize p t.times t.req (run p before a)).0

  -- Every call that has returned, however its steps, the steps of other calls and reloads were
  -- interleaved, has given the answer that it gives when it runs at once, after the requests and
  -- reloads that the history has before it; a call stands in the history where it loads the ruleset.
  pub Reach-IsAnswered :
      {a : Authorizer p} {history : List (Event p)} {s : System p} (before after : List (Thread p))
      (t : Thread p) (reply : Reply)
      → Reach p a history s
      → s.threads ≡ before ++ t ∷ after
      → t.pc ≡ returned reply
      → IsAnswered a history t reply
  unfolding reply_of settled settle
  Reach-IsAnswered {a} {history} {s} before after t reply r split done =
      let threads = subst (All (IsPlaced p a history)) split (Reach-IsLinear r).threads in
      let here = (All-append_right (IsPlaced p a history) before (t ∷ after) threads).0 in
      elim here [
        | inl e ↦ absurd (ground arith)
        | inr h ↦
            let answer =
              ap (λ pc. reply_of p (settled p a.sign_key t.times t.req pc)) (sym done) ∙ h.reply in
            record {
              before = h.before;
              after = h.after;
              split = h.split;
              reply = ground (arith, answer);
            }
      ]
