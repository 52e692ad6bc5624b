-- ===== src/Callout/Interleaving/Advancing.antt =====
-- internal/callout/callout.go: what one step of a call changes, and what it leaves alone.
use nats_jwt_callout.Base.{◌≡◌, refl, ap, List, [], ◌∷◌, ◌++◌, ◌≢◌}
use nats_jwt_callout.Callout.{Request, Packages, Times, Authorizer}
use nats_jwt_callout.Callout.Accounting.{Event, handle, run}
use nats_jwt_callout.Callout.Interleaving.{
  Pc, arrived, holding, judging, leaving, returned, advance, settle, perform, say, count, Effect,
}
use nats_jwt_callout.Callout.Interleaving.Settling.{settled, settled-settle, reply_of}

module _ (p : Packages) where
  pub run-append :
      (xs ys : List (Event p)) (a : Authorizer p) → run p (xs ++ ys) a ≡ run p ys (run p xs a)
  unfolding run
  run-append [] ys a = refl
  run-append (e ∷ xs) ys a = run-append xs ys (handle p e a)

  perform-sign_key :
      (e : Effect) (a : Authorizer p)
      → ((perform p e a).state ≡ a.state) × ((perform p e a).sign_key ≡ a.sign_key)
  unfolding perform
  perform-sign_key (say line) a = (refl, refl)
  perform-sign_key (count c) a = (refl, refl)

  pub advance-sign_key :
      (times : Times) (req : Request) (pc : Pc p) (a : Authorizer p)
      → ((advance p times req pc a).0.state ≡ a.state)
        × ((advance p times req pc a).0.sign_key ≡ a.sign_key)
  unfolding advance
  advance-sign_key times req arrived a = (refl, refl)
  advance-sign_key times req (holding st) a = (refl, refl)
  advance-sign_key times req (judging st id) a = (refl, refl)
  advance-sign_key times req (leaving [] reply) a = (refl, refl)
  advance-sign_key times req (leaving (e ∷ effects) reply) a = perform-sign_key e a
  advance-sign_key times req (returned reply) a = (refl, refl)

  -- A later step changes nothing about the answer.
  pub reply-advance :
      (times : Times) (req : Request) (pc : Pc p) (a : Authorizer p)
      → pc ≢ arrived
      → reply_of p (settled p a.sign_key times req (advance p times req pc a).1)
        ≡ reply_of p (settled p a.sign_key times req pc)
  unfolding advance reply_of settled settle
  reply-advance times req arrived a h = absurd (h refl)
  reply-advance times req (holding st) a h =
      ap (reply_of p) (settled-settle p a.sign_key times req (holding st))
  reply-advance times req (judging st id) a h =
      ap (reply_of p) (settled-settle p a.sign_key times req (judging st id))
  reply-advance times req (leaving [] reply) a h = refl
  reply-advance times req (leaving (e ∷ effects) reply) a h = refl
  reply-advance times req (returned reply) a h = refl
