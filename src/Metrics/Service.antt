-- ===== src/Metrics/Service.antt =====
-- request-metrics.service.ts. Durations are whole nanoseconds here; what JavaScript's floating
-- point does with them, `Math.ceil(length * quantile)` and the rounding to milliseconds, is given.
use towerdesk_backend.Common.{
  ℕ, zero, suc, ◌-◌, Bool, String, string_eq, ◌==◌, Option, none, some, List, [], ◌∷◌, ◌++◌, map,
  select, length, drop, min, ltb, leb, not, is_empty, or_default, sort_by, if◌then◌else◌,
}

-- 0.5, 0.95 and 0.99
pub data Quantile : Type 0 where
  q50 q95 q99 : Quantile

pub record Numbers : Type 0 where
  pub ceil_product : Quantile → ℕ → ℕ
  pub round : ℕ → ℕ

-- `samples`, a `Map` in the order of insertion
abbrev pub Samples : Type 0
Samples = List (String × List ℕ)

-- `this.samples.get(routeKey) ?? []`
unfoldable pub bucket_of : String → Samples → List ℕ
bucket_of key [] = []
bucket_of key ((k, bucket) ∷ rest) = if k == key then bucket else bucket_of key rest

-- `this.samples.set(routeKey, bucket)`
unfoldable pub set_bucket : String → List ℕ → Samples → Samples
set_bucket key bucket [] = (key, bucket) ∷ []
set_bucket key bucket ((k, old) ∷ rest) =
    if k == key then (k, bucket) ∷ rest else (k, old) ∷ set_bucket key bucket rest

-- `push`, and `shift` when there are too many
unfoldable pub pushed : ℕ → ℕ → List ℕ → List ℕ
pushed max_samples duration bucket =
    let all = bucket ++ duration ∷ [] in if ltb max_samples (length all) then drop 1 all else all

-- `record`
unfoldable pub record_duration : Bool → ℕ → String → ℕ → Samples → Samples
unfolding bucket_of set_bucket pushed
record_duration enabled max_samples key duration samples =
    if not enabled
    then samples
    else set_bucket key (pushed max_samples duration (bucket_of key samples)) samples

-- `xs[n]`
unfoldable pub nth : ℕ → List ℕ → Option ℕ
nth n [] = none
nth zero (x ∷ xs) = some x
nth (suc n) (x ∷ xs) = nth n xs

abbrev pub ascending : List ℕ → List ℕ
ascending = sort_by leb

-- `Math.min(sorted.length - 1, Math.max(0, Math.ceil(sorted.length * quantile) - 1))`
abbrev pub position : Numbers → Quantile → ℕ → ℕ
position numbers quantile n = min (n - 1) (numbers.ceil_product quantile n - 1)

-- `percentile`; the position is one of the list
unfoldable pub percentile : Numbers → List ℕ → Quantile → ℕ
unfolding nth
percentile numbers sorted quantile =
    if is_empty sorted
    then 0
    else numbers.round (or_default (nth (position numbers quantile (length sorted)) sorted) 0)

-- What `flush` logs of a route.
pub record Line : Type 0 where
  pub route : String
  pub count : ℕ
  pub p50 : ℕ
  pub p95 : ℕ
  pub p99 : ℕ

unfoldable pub line_of : Numbers → String × List ℕ → Line
unfolding percentile
line_of numbers (key, values) = record {
  route = key;
  count = length values;
  p50 = percentile numbers (ascending values) Quantile.q50;
  p95 = percentile numbers (ascending values) Quantile.q95;
  p99 = percentile numbers (ascending values) Quantile.q99;
}

-- `flush`: what is logged, and the samples after it
unfoldable pub flush : Numbers → Samples → List Line × Samples
unfolding line_of
flush numbers samples =
    (map (line_of numbers) (select (λ (key, values). not (is_empty values)) samples), [])
