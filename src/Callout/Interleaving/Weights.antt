-- ===== src/Callout/Interleaving/Weights.antt =====
-- internal/metrics/metrics.go: totals of the counters, as sums of weights over the calls.
use nats_jwt_callout.Base.{
  ℕ, ◌≡◌, refl, some, List, [], ◌∷◌, Str, ◌==◌, arith, tally, length, Option, none,
}
use nats_jwt_callout.Metrics.{Metrics, Call, init_requests, inc_requests, inc_denials, observe}
use nats_jwt_callout.Metrics.Totals.{one_if, requests_total, denials_total, duration_count}
use nats_jwt_callout.Callout.{LogLine}
use nats_jwt_callout.Callout.Interleaving.{Effect, say, count}
use nats_jwt_callout.Callout.Interleaving.Writing.{tally_calls}

abbrev pub requests_in : Str → Call → ℕ
requests_in label (inc_requests l) = one_if (l == label)
requests_in label c = 0

abbrev pub denials_in : Str → Call → ℕ
denials_in label (inc_denials l) = one_if (l == label)
denials_in label c = 0

abbrev pub durations_in : Call → ℕ
durations_in (observe d) = 1
durations_in c = 0

pub requests_total-tally :
    (label : Str) (m : Metrics) → requests_total label m ≡ tally (requests_in label) m
unfolding requests_total
requests_total-tally label [] = refl
requests_total-tally label (inc_requests l ∷ m) = omega (arith, requests_total-tally label m)
requests_total-tally label (init_requests l ∷ m) = omega (arith, requests_total-tally label m)
requests_total-tally label (inc_denials l ∷ m) = omega (arith, requests_total-tally label m)
requests_total-tally label (observe d ∷ m) = omega (arith, requests_total-tally label m)

pub denials_total-tally :
    (label : Str) (m : Metrics) → denials_total label m ≡ tally (denials_in label) m
unfolding denials_total
denials_total-tally label [] = refl
denials_total-tally label (inc_denials l ∷ m) = omega (arith, denials_total-tally label m)
denials_total-tally label (init_requests l ∷ m) = omega (arith, denials_total-tally label m)
denials_total-tally label (inc_requests l ∷ m) = omega (arith, denials_total-tally label m)
denials_total-tally label (observe d ∷ m) = omega (arith, denials_total-tally label m)

pub duration_count-tally : (m : Metrics) → duration_count m ≡ tally durations_in m
unfolding duration_count
duration_count-tally [] = refl
duration_count-tally (observe d ∷ m) = omega (arith, duration_count-tally m)
duration_count-tally (init_requests l ∷ m) = omega (arith, duration_count-tally m)
duration_count-tally (inc_requests l ∷ m) = omega (arith, duration_count-tally m)
duration_count-tally (inc_denials l ∷ m) = omega (arith, duration_count-tally m)

abbrev pub none_of : {A : Type 0} → A → ℕ
none_of x = 0

abbrev pub each : {A : Type 0} → A → ℕ
each x = 1

pub tally-none_of : {A : Type 0} → (xs : List A) → tally none_of xs ≡ 0
tally-none_of [] = refl
tally-none_of (x ∷ xs) = omega (arith, tally-none_of xs)

pub length-tally : {A : Type 0} → (xs : List A) → length xs ≡ tally each xs
length-tally [] = refl
length-tally (x ∷ xs) = omega (arith, length-tally xs)

-- A weight for the lines and one for the calls.
abbrev pub weigh : (LogLine → ℕ) → (Call → ℕ) → Effect → ℕ
weigh f g (say line) = f line
weigh f g (count c) = g c

pub tally_calls-none_of :
    (f : LogLine → ℕ) (o : Option Metrics) → tally_calls (weigh f none_of) o ≡ 0
tally_calls-none_of f none = refl
tally_calls-none_of f (some m) = tally-none_of m
