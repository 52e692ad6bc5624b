-- ===== src/Metrics/Totals.antt =====
-- What a scrape of the endpoint reads: the totals of the counters and of the histogram.
use nats_jwt_callout.Base.{ℕ, suc, ◌+◌, ◌≡◌, Bool, true, false, [], ◌∷◌, ◌++◌, Str, ◌==◌, arith}
use nats_jwt_callout.Metrics.{init_requests, inc_requests, inc_denials, observe, Metrics}

abbrev pub one_if : Bool → ℕ
one_if true = 1
one_if false = 0

-- authorization_requests_total{result="…"}
unfoldable pub requests_total : Str → Metrics → ℕ
requests_total label [] = 0
requests_total label (inc_requests l ∷ m) = one_if (l == label) + requests_total label m
requests_total label (_ ∷ m) = requests_total label m

-- authorization_denials_total{reason="…"}
unfoldable pub denials_total : Str → Metrics → ℕ
denials_total label [] = 0
denials_total label (inc_denials l ∷ m) = one_if (l == label) + denials_total label m
denials_total label (_ ∷ m) = denials_total label m

-- authorization_duration_seconds_count
unfoldable pub duration_count : Metrics → ℕ
duration_count [] = 0
duration_count (observe d ∷ m) = suc (duration_count m)
duration_count (_ ∷ m) = duration_count m

pub requests_total-append :
    (label : Str) (m n : Metrics)
    → requests_total label (m ++ n) ≡ requests_total label m + requests_total label n
unfolding requests_total
requests_total-append label [] n = omega arith
requests_total-append label (inc_requests l ∷ m) n = omega (arith, requests_total-append label m n)
requests_total-append label (init_requests l ∷ m) n = requests_total-append label m n
requests_total-append label (inc_denials l ∷ m) n = requests_total-append label m n
requests_total-append label (observe d ∷ m) n = requests_total-append label m n

pub denials_total-append :
    (label : Str) (m n : Metrics)
    → denials_total label (m ++ n) ≡ denials_total label m + denials_total label n
unfolding denials_total
denials_total-append label [] n = omega arith
denials_total-append label (inc_denials l ∷ m) n = omega (arith, denials_total-append label m n)
denials_total-append label (init_requests l ∷ m) n = denials_total-append label m n
denials_total-append label (inc_requests l ∷ m) n = denials_total-append label m n
denials_total-append label (observe d ∷ m) n = denials_total-append label m n

pub duration_count-append :
    (m n : Metrics) → duration_count (m ++ n) ≡ duration_count m + duration_count n
unfolding duration_count
duration_count-append [] n = omega arith
duration_count-append (observe d ∷ m) n = omega (arith, duration_count-append m n)
duration_count-append (init_requests l ∷ m) n = duration_count-append m n
duration_count-append (inc_requests l ∷ m) n = duration_count-append m n
duration_count-append (inc_denials l ∷ m) n = duration_count-append m n
