-- ===== src/Tests/Windows.antt =====
-- The theorems of the counters, the latencies, the mask and the retries at concrete inputs.
use pool_gate.Common.{◌*◌, ◌≤◌, ◌<◌, ◌≡◌, ◌++◌, refl, some, [], ◌∷◌, arith, length, leb, ◌==◌}
use pool_gate.Window.Recent.{recent}
use pool_gate.Window.Sliding.{records, counts, recorded, count, run, new, count-recorded}
use pool_gate.Window.Rolling.{Entry, RollingWindowCounter, count_since, reset_in_seconds}
use pool_gate.Window.Rolling
use pool_gate.Window.Rolling.Counts.{adds, prunes, sums, added, weight_since, count_since-added}
use pool_gate.Window.Rolling.Counts
use pool_gate.Latency.{LatencyTracker, p95, p95_index, sorted}
use pool_gate.Latency.Percentile.{passing, p95_of_samples}
use pool_gate.Mask.{mask_key, is_alnum, gsk, stars, mask_key_hides}
use pool_gate.Retry.{Exception, other, backoff, calculate}
use pool_gate.Retry.Classes.{calculate_bounds}

count-recorded_example :
    (count (run (new 10) (records 2 ∷ counts 13 ∷ records 14 ∷ [])) 15).0
    ≡ length (recent (λ t. t) 5 (recorded [] (records 2 ∷ counts 13 ∷ records 14 ∷ [])))
count-recorded_example =
    count-recorded 10 15 (records 2 ∷ counts 13 ∷ records 14 ∷ [])
      (omega arith, (omega arith, (omega arith, omega arith)))

count_since-added_example :
    (count_since (Counts.run (Rolling.new 10) (adds 4 3000000 ∷ prunes 5000000 ∷ [])) 8 9000000).0
    ≡ weight_since 1000000 (added [] (adds 4 3000000 ∷ prunes 5000000 ∷ []))
count_since-added_example =
    count_since-added 10 8 9000000 (adds 4 3000000 ∷ prunes 5000000 ∷ []) (omega arith)
      (omega arith, (omega arith, tt))

abbrev two_entries : RollingWindowCounter
two_entries = record {
  entries =
      record { timestamp = 2000000; weight = 3 } ∷ record { timestamp = 5000000; weight = 1 } ∷ [];
  max_window_seconds = 60;
}

abbrev three_samples : LatencyTracker
three_samples = record { max_samples = 200; samples = 7 ∷ 3 ∷ 5 ∷ [] }

p95_of_samples_example :
    (0 < passing (λ y. y == p95 three_samples) three_samples.samples)
    × (19 * 3 ≤ 20 * passing (λ y. leb y (p95 three_samples)) three_samples.samples)
    × (p95_index 3 < length (sorted three_samples.samples))
p95_of_samples_example = p95_of_samples three_samples (omega arith)

mask_key_hides_example :
    mask_key (gsk ++ ((65 ∷ 66 ∷ 67 ∷ 68 ∷ []) ++ ((48 ∷ 49 ∷ []) ++ (97 ∷ 98 ∷ 99 ∷ 100 ∷ []))))
    ≡ gsk ++ ((65 ∷ 66 ∷ 67 ∷ 68 ∷ []) ++ (stars ++ (97 ∷ 98 ∷ 99 ∷ 100 ∷ [])))
unfolding is_alnum
mask_key_hides_example =
    mask_key_hides (65 ∷ 66 ∷ 67 ∷ 68 ∷ []) (48 ∷ 49 ∷ []) (97 ∷ 98 ∷ 99 ∷ 100 ∷ []) refl
      (omega arith) refl
      (refl, (refl, (refl, (refl, (refl, (refl, (refl, (refl, (refl, (refl, tt))))))))))

abbrev not_found : Exception
not_found = record { class = other; type_name = "APIStatusError"; status_code = some 404 }

abbrev rate_limited_error : Exception
rate_limited_error = record {
  class = other;
  type_name = "RateLimitExceededError";
  status_code = some 429;
}

calculate_bounds_example :
    (backoff 500 30000 3 ≤ backoff 500 30000 4) × (calculate 500 30000 100 3 42 ≤ 30042)
calculate_bounds_example = calculate_bounds 500 30000 100 3 42
