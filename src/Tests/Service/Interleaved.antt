-- ===== src/Tests/Service/Interleaved.antt =====
-- internal/callout/callout.go: two calls at the same time, with a reload while they are under way.
use nats_jwt_callout.Base.{refl, true, List, [], ◌∷◌, ◌++◌, codes, ok, err}
use nats_jwt_callout.Regexp.Fragment.{fragment}
use nats_jwt_callout.Authz.Policy.{Policy}
use nats_jwt_callout.Callout.{authorization_denied, reload, Authorizer}
use nats_jwt_callout.Callout.Accounting.{Event, requested, reloaded, IsAudited}
use nats_jwt_callout.Callout.Interleaving
use nats_jwt_callout.Callout.Interleaving.{
  Effect, say, count, Pc, Reply, arrived, holding, judging, leaving, returned, Thread, advance,
  System, Turn, arrives, advances, reloads, Reach, begin, later, settle, perform, after_verify,
  after_evaluate, after_encode,
}
use nats_jwt_callout.Callout.Interleaving.Linear.{IsAnswered, Reach-IsAnswered}
use nats_jwt_callout.Callout.Interleaving.Grants.{IsJustified, Reach-IsIssued}
use nats_jwt_callout.Callout.Interleaving.Audit.{quiet-IsAudited}
use nats_jwt_callout.Tests.{cel, packages, policy, request, times}
use nats_jwt_callout.Tests.Service.{verifier, authorizer, answer_code}

abbrev no_rules : Policy fragment cel
no_rules = record { rules = []; validated = true }

step_code : Unit {0}
unfolding answer_code advance settle perform after_verify after_evaluate after_encode reload
step_code = tt

abbrev history : List (Event packages)
history = requested times request ∷ reloaded verifier no_rules ∷ requested times request ∷ []

-- One step of the call that came last, or of the one before it.
abbrev second :
    {h : List (Event packages)} {t : Thread packages} {ts : List (Thread packages)}
    {a : Authorizer packages}
    → Reach packages authorizer h (record { shared = a; threads = t ∷ ts })
    → Reach packages authorizer (h ++ Interleaving.entry packages t.times t.req t.pc) (record {
      shared = (advance packages t.times t.req t.pc a).0;
      threads = record t { pc = (advance packages t.times t.req t.pc a).1 } ∷ ts;
    })
second {t} {ts} r = later r (advances [] ts t refl)

abbrev first :
    {h : List (Event packages)} {t u : Thread packages} {ts : List (Thread packages)}
    {a : Authorizer packages}
    → Reach packages authorizer h (record { shared = a; threads = u ∷ t ∷ ts })
    → Reach packages authorizer (h ++ Interleaving.entry packages t.times t.req t.pc) (record {
      shared = (advance packages t.times t.req t.pc a).0;
      threads = u ∷ record t { pc = (advance packages t.times t.req t.pc a).1 } ∷ ts;
    })
first {t} {u} {ts} r = later r (advances (u ∷ []) ts t refl)

abbrev at : Pc packages → Pc packages → Authorizer packages → System packages
at later_pc earlier_pc a = record {
  shared = a;
  threads =
      record { times = times; req = request; pc = later_pc }
      ∷ record { times = times; req = request; pc = earlier_pc }
      ∷ [];
}

-- The first call has loaded the policy that is then replaced, and the second one loads the new one.
both_loaded : Reach packages authorizer history (
    at
      (holding (record { verifier = verifier; policy = no_rules }))
      (holding authorizer.state)
      (reload packages verifier no_rules authorizer))
unfolding step_code
both_loaded = second (
    later
      (later (later (later begin (arrives times request)) (advances [] [] _ refl))
        (reloads verifier no_rules))
      (arrives times request))

-- The calls take turns, and both return.
finished :
    (b : Authorizer packages) × Reach packages authorizer history
      (at (returned (err authorization_denied)) (returned (ok (codes "UABCSK"))) b)
unfolding step_code
finished = (
  _,
  second (
      second (
        first (
          first (
            second
              (second (first (first (second (first (second (first (second both_loaded)))))))))))),
)

Reach-IsAnswered_example :
    IsAnswered packages authorizer history
      (record { times = times; req = request; pc = returned (ok (codes "UABCSK")) })
      (ok (codes "UABCSK"))
Reach-IsAnswered_example =
    Reach-IsAnswered packages
      (record { times = times; req = request; pc = returned (err authorization_denied) } ∷ []) []
      (record { times = times; req = request; pc = returned (ok (codes "UABCSK")) })
      (ok (codes "UABCSK")) finished.1 refl refl

quiet-IsAudited_example : IsAudited packages finished.0 2
quiet-IsAudited_example =
    quiet-IsAudited packages verifier policy (codes "SK") {history = history} finished.1
      (tt, (tt, tt))

Reach-IsIssued_example :
    IsJustified packages authorizer history
      (record { times = times; req = request; pc = returned (ok (codes "UABCSK")) })
      (codes "UABCSK")
Reach-IsIssued_example =
    Reach-IsIssued packages (λ nkey. refl)
      (record { times = times; req = request; pc = returned (err authorization_denied) } ∷ []) []
      (record { times = times; req = request; pc = returned (ok (codes "UABCSK")) })
      (codes "UABCSK") finished.1 refl refl
