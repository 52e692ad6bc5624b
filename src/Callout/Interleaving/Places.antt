-- ===== src/Callout/Interleaving/Places.antt =====
-- internal/callout/callout.go: where a call stands in the history of the ruleset.
use nats_jwt_callout.Base.{
  ◌≡◌, refl, sym, ap, ◌∙◌, some, List, [], ◌∷◌, ◌++◌, append_assoc, ◌≢◌, All, arith, ◌⊎◌, inl, inr,
}
use nats_jwt_callout.Callout.{Request, Packages, Times, Authorizer, authorize}
use nats_jwt_callout.Callout.Accounting.{Event, requested, run, run-last_ruleset}
use nats_jwt_callout.Callout.Interleaving.{
  Reply, Pc, arrived, holding, judging, leaving, returned, Thread, advance, entry,
}
use nats_jwt_callout.Callout.Interleaving.Settling.{settled, reply_of, authorize_does}
use nats_jwt_callout.Callout.Interleaving.Advancing.{reply-advance}

module _ (p : Packages) where
  -- The place in the history of a call that has loaded its ruleset.
  pub record HasPlace (a : Authorizer p) (history : List (Event p)) (t : Thread p) : Type 0 where
    pub before : List (Event p)
    pub after : List (Event p)
    pub split : history ≡ before ++ requested t.times t.req ∷ after
    pub reply :
        reply_of p (settled p a.sign_key t.times t.req t.pc)
        ≡ some (authorize p t.times t.req (run p before a)).0

  abbrev pub IsPlaced : Authorizer p → List (Event p) → Thread p → Type 0
  IsPlaced a history t = (t.pc ≡ arrived) ⊎ HasPlace a history t

  HasPlace-append :
      (a : Authorizer p) (history new : List (Event p)) (t : Thread p)
      → HasPlace a history t
      → HasPlace a (history ++ new) t
  HasPlace-append a history new t h = record {
    before = h.before;
    after = h.after ++ new;
    split = ap (λ l. l ++ new) h.split ∙ append_assoc h.before _ new;
    reply = h.reply;
  }

  IsPlaced-append :
      (a : Authorizer p) (history new : List (Event p)) (t : Thread p)
      → IsPlaced a history t
      → IsPlaced a (history ++ new) t
  IsPlaced-append a history new t (inl e) = inl e
  IsPlaced-append a history new t (inr h) = inr (HasPlace-append a history new t h)

  pub All-IsPlaced-append :
      (a : Authorizer p) (history new : List (Event p)) (ts : List (Thread p))
      → All (IsPlaced a history) ts
      → All (IsPlaced a (history ++ new)) ts
  All-IsPlaced-append a history new [] h = tt
  All-IsPlaced-append a history new (t ∷ ts) h =
      (IsPlaced-append a history new t h.0, All-IsPlaced-append a history new ts h.1)

  -- A call that loads the ruleset `st` is entered at the end.
  load-HasPlace :
      (a b : Authorizer p) (history : List (Event p)) (times : Times) (req : Request)
      → b.state ≡ (run p history a).state
      → b.sign_key ≡ a.sign_key
      → HasPlace a
          (history ++ requested times req ∷ [])
          (record { times = times; req = req; pc = holding b.state })
  unfolding reply_of
  load-HasPlace a b history times req state key =
      let l = authorize_does p times req (run p history a) in
      let (state', key') = run-last_ruleset p history a in
      record {
        before = history;
        after = [];
        split = refl;
        reply =
            ap (λ st. reply_of p (settled p a.sign_key times req (holding st))) state
            ∙ ap (λ k. reply_of p (settled p k times req (holding (run p history a).state)))
                (sym key')
            ∙ ap (reply_of p) l.at
            ∙ ap (λ (r : Reply × Authorizer p). some r.0) (sym l.does);
      }

  later-HasPlace :
      (a b : Authorizer p) (history new : List (Event p)) (times : Times) (req : Request)
      (pc : Pc p)
      → b.sign_key ≡ a.sign_key
      → pc ≢ arrived
      → IsPlaced a history (record { times = times; req = req; pc = pc })
      → HasPlace a
          (history ++ new)
          (record { times = times; req = req; pc = (advance p times req pc b).1 })
  later-HasPlace a b history new times req pc key past (inl e) = absurd (past e)
  later-HasPlace a b history new times req pc key past (inr h) =
      HasPlace-append a history new _ (record {
        before = h.before;
        after = h.after;
        split = h.split;
        reply =
            ap (λ k. reply_of p (settled p k times req (advance p times req pc b).1)) (sym key)
            ∙ reply-advance p times req pc b past
            ∙ ap (λ k. reply_of p (settled p k times req pc)) key
            ∙ h.reply;
      })

  pub advance-HasPlace :
      (a b : Authorizer p) (history : List (Event p)) (times : Times) (req : Request) (pc : Pc p)
      → b.state ≡ (run p history a).state
      → b.sign_key ≡ a.sign_key
      → IsPlaced a history (record { times = times; req = req; pc = pc })
      → HasPlace a
          (history ++ entry p times req pc)
          (record { times = times; req = req; pc = (advance p times req pc b).1 })
  unfolding advance
  advance-HasPlace a b history times req arrived state key h =
      load-HasPlace a b history times req state key
  advance-HasPlace a b history times req (holding st) state key h =
      later-HasPlace a b history [] times req _ key (λ e. ground arith) h
  advance-HasPlace a b history times req (judging st id) state key h =
      later-HasPlace a b history [] times req (judging st id) key (λ e. ground arith) h
  advance-HasPlace a b history times req (leaving [] reply) state key h =
      later-HasPlace a b history [] times req (leaving [] reply) key (λ e. ground arith) h
  advance-HasPlace a b history times req (leaving (e ∷ effects) reply) state key h =
      later-HasPlace a b history [] times req (leaving (e ∷ effects) reply) key (λ e. ground arith)
        h
  advance-HasPlace a b history times req (returned reply) state key h =
      later-HasPlace a b history [] times req (returned reply) key (λ e. ground arith) h
