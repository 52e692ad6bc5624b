-- ===== src/Callout/Interleaving/Writing.antt =====
-- internal/callout/callout.go, internal/metrics/metrics.go: what the calls write to the log and to
-- the metrics, and what they have still to write.
use nats_jwt_callout.Base.{
  ℕ, ◌+◌, ◌≡◌, Str, Result, ◌≢◌, refl, sym, ap, ◌∙◌, Option, none, some, List, [], ◌∷◌, ◌++◌,
  append_assoc, arith, tally, tally-append,
}
use nats_jwt_callout.Metrics.{Metrics, Call}
use nats_jwt_callout.Callout.{Request, Packages, Times, Denied, Authorizer, authorize}
use nats_jwt_callout.Callout.Interleaving.{
  Effect, say, count, inc, perform, Pc, arrived, holding, judging, leaving, returned, Thread,
  advance, settle,
}
use nats_jwt_callout.Callout.Interleaving.Settling.{
  perform_all, settled, settled-settle, pending, authorize_does,
}

-- What the calls of the collectors weigh.
abbrev pub tally_calls : (Effect → ℕ) → Option Metrics → ℕ
tally_calls w none = 0
tally_calls w (some m) = tally (λ c. w (count c)) m

tally_calls-inc :
    (w : Effect → ℕ) (c : Call) (o : Option Metrics) {m : Metrics}
    → o ≡ some m
    → tally_calls w (inc c o) ≡ tally_calls w o + w (count c)
tally_calls-inc w c none h = absurd (ground arith)
tally_calls-inc w c (some m) h = omega (arith, tally-append (λ c. w (count c)) m (c ∷ []))

module _ (p : Packages) where
  -- The log lines and the calls of collectors so far, each with its weight.
  unfoldable pub written : (Effect → ℕ) → Authorizer p → ℕ
  written w a = tally (λ line. w (say line)) a.log + tally_calls w a.metrics

  abbrev pub IsEnabled : Authorizer p → Type 0
  IsEnabled a = (m : Metrics) × (a.metrics ≡ some m)

  pub perform-IsEnabled : (e : Effect) (a : Authorizer p) → IsEnabled a → IsEnabled (perform p e a)
  unfolding perform
  perform-IsEnabled (say line) a h = h
  perform-IsEnabled (count c) a (m, e) = (m ++ c ∷ [], ap (inc c) e)

  written-perform :
      (w : Effect → ℕ) (e : Effect) (a : Authorizer p)
      → IsEnabled a
      → written w (perform p e a) ≡ written w a + w e
  unfolding written perform
  written-perform w (say line) a h =
      omega (arith, tally-append (λ line. w (say line)) a.log (line ∷ []))
  written-perform w (count c) a (m, e) = omega (arith, tally_calls-inc w c a.metrics e)

  pub perform_all-IsEnabled :
      (es : List Effect) (a : Authorizer p) → IsEnabled a → IsEnabled (perform_all p es a)
  unfolding perform_all
  perform_all-IsEnabled [] a h = h
  perform_all-IsEnabled (e ∷ es) a h =
      perform_all-IsEnabled es (perform p e a) (perform-IsEnabled e a h)

  pub written-perform_all :
      (w : Effect → ℕ) (es : List Effect) (a : Authorizer p)
      → IsEnabled a
      → written w (perform_all p es a) ≡ written w a + tally w es
  unfolding perform_all
  written-perform_all w [] a h = omega arith
  written-perform_all w (e ∷ es) a h =
      let rest = written-perform_all w es (perform p e a) (perform-IsEnabled e a h) in
      omega (arith, rest, written-perform w e a h)

  -- The writes that a call has still to make.
  unfoldable pub left : p.jwt.KeyPair → Thread p → List Effect
  left key t = pending p (settled p key t.times t.req t.pc)

  unfoldable pub in_flight : p.jwt.KeyPair → List (Thread p) → List Effect
  in_flight key [] = []
  in_flight key (t ∷ threads) = left key t ++ in_flight key threads

  pub in_flight-append :
      (key : p.jwt.KeyPair) (xs ys : List (Thread p))
      → in_flight key (xs ++ ys) ≡ in_flight key xs ++ in_flight key ys
  unfolding in_flight
  in_flight-append key [] ys = refl
  in_flight-append key (t ∷ xs) ys =
      ap (λ es. left key t ++ es) (in_flight-append key xs ys) ∙ sym (append_assoc (left key t) _ _)

  authorize-perform_all :
      (times : Times) (req : Request) (a : Authorizer p)
      → (authorize p times req a).1
        ≡ perform_all p (pending p (settled p a.sign_key times req (holding a.state))) a
  unfolding pending
  authorize-perform_all times req a =
      let l = authorize_does p times req a in
      ap (λ (r : Result Denied Str × Authorizer p). r.1) l.does
      ∙ ap (λ pc. perform_all p (pending p pc) a) (sym l.at)

  pub authorize-IsEnabled :
      (times : Times) (req : Request) (a : Authorizer p)
      → IsEnabled a
      → IsEnabled (authorize p times req a).1
  authorize-IsEnabled times req a h =
      rw (authorize-perform_all times req a) (perform_all-IsEnabled _ a h)

  pub written-authorize :
      (w : Effect → ℕ) (times : Times) (req : Request) (a : Authorizer p)
      → IsEnabled a
      → written w (authorize p times req a).1
        ≡ written w a + tally w (pending p (settled p a.sign_key times req (holding a.state)))
  written-authorize w times req a h =
      rw (authorize-perform_all times req a) (written-perform_all w _ a h)

  -- A step of a call moves one write at most from what is left to what is written.
  pub later-written :
      (w : Effect → ℕ) (times : Times) (req : Request) (pc : Pc p) (b : Authorizer p)
      → IsEnabled b
      → pc ≢ arrived
      → written w (advance p times req pc b).0
          + tally w (pending p (settled p b.sign_key times req (advance p times req pc b).1))
        ≡ written w b + tally w (pending p (settled p b.sign_key times req pc))
  unfolding advance pending settled settle
  later-written w times req arrived b h past = absurd (past refl)
  later-written w times req (holding st) b h past =
      ap (λ pc. written w b + tally w (pending p pc))
        (settled-settle p b.sign_key times req (holding st))
  later-written w times req (judging st id) b h past =
      ap (λ pc. written w b + tally w (pending p pc))
        (settled-settle p b.sign_key times req (judging st id))
  later-written w times req (leaving [] reply) b h past = refl
  later-written w times req (leaving (e ∷ es) reply) b h past =
      omega (arith, written-perform w e b h)
  later-written w times req (returned reply) b h past = refl
