-- ===== src/Metrics/Rank.antt =====
-- The percentiles that are logged are order statistics.
use towerdesk_backend.Common.{ℕ, ◌+◌, ◌≤◌, Bool, List, [], ◌∷◌, All, if◌then◌else◌}

-- How many of the samples pass a test.
unfoldable pub count_of : (ℕ → Bool) → List ℕ → ℕ
count_of p [] = 0
count_of p (x ∷ xs) = (if p x then 1 else 0) + count_of p xs

-- Each element is at most those behind it.
abbrev IsAscending : List ℕ → Type 0
IsAscending [] = Unit
IsAscending (x ∷ xs) = All (λ y. x ≤ y) xs × IsAscending xs
