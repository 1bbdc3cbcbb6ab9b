-- ===== src/Metrics/Window.antt =====
-- What a bucket holds: of all that was recorded since the last flush, the newest.
use towerdesk_backend.Common.{
  ℕ, zero, suc, ◌-◌, ◌≤◌, true, String, string_eq, ◌==◌, List, [], ◌∷◌, ◌∙◌, sym, Bool-cases, inl,
  inr, ◌++◌, ◌≡◌, refl, length, drop, arith, length-drop, if◌then◌else◌,
}
use towerdesk_backend.Metrics.Service.{
  Numbers, Samples, bucket_of, set_bucket, pushed, record_duration, flush,
}

-- The abstract state: all that was recorded since the last flush, in order.
abbrev pub History : Type 0
History = List (String × ℕ)

unfoldable pub durations_of : String → History → List ℕ
durations_of key [] = []
durations_of key ((k, d) ∷ rest) =
    if k == key then d ∷ durations_of key rest else durations_of key rest

-- The last `n` of a list.
abbrev pub newest : ℕ → List ℕ → List ℕ
newest n xs = drop (length xs - n) xs

pub data Op : Type 0 where
  records : String → ℕ → Op
  flushes : Op

unfoldable pub specified : Op → History → History
specified (records key duration) history = history ++ (key, duration) ∷ []
specified flushes history = []

unfoldable pub performed : Numbers → ℕ → Op → Samples → Samples
unfolding record_duration flush
performed numbers max_samples (records key duration) samples =
    record_duration true max_samples key duration samples
performed numbers max_samples flushes samples = (flush numbers samples).1

-- Every bucket is the newest of what the history has for its route.
abbrev pub Represents : ℕ → Samples → History → Type 0
Represents max_samples samples history =
    (key : String) → bucket_of key samples ≡ newest max_samples (durations_of key history)

bucket_of-set_bucket :
    (key : String) (bucket : List ℕ) (samples : Samples) (k : String)
    → bucket_of k (set_bucket key bucket samples)
      ≡ (if key == k then bucket else bucket_of k samples)
unfolding bucket_of set_bucket
bucket_of-set_bucket key bucket [] k = ground arith
bucket_of-set_bucket key bucket ((j, old) ∷ rest) k = ground (
  arith,
  bucket_of-set_bucket key bucket rest k,
  string_eq.beq_iff j key,
  string_eq.beq_iff j k,
  string_eq.beq_iff key k,
)

durations_of-append :
    (key : String) (history : History) (k : String) (d : ℕ)
    → durations_of key (history ++ (k, d) ∷ [])
      ≡ (if k == key then durations_of key history ++ d ∷ [] else durations_of key history)
unfolding durations_of
durations_of-append key [] k d = ground arith
durations_of-append key ((j, e) ∷ history) k d = ground (arith, durations_of-append key history k d)

length-snoc : (xs : List ℕ) (d : ℕ) → length (xs ++ d ∷ []) ≡ suc (length xs)
length-snoc [] d = refl
length-snoc (x ∷ xs) d = ground (arith, length-snoc xs d)

drop-snoc :
    (n : ℕ) (xs : List ℕ) (d : ℕ) → n ≤ length xs → drop n (xs ++ d ∷ []) ≡ drop n xs ++ d ∷ []
unfolding drop
drop-snoc zero xs d h = refl
drop-snoc (suc n) [] d h = absurd (omega arith)
drop-snoc (suc n) (x ∷ xs) d h = ground (arith, drop-snoc n xs d)

drop-drop : (n : ℕ) (xs : List ℕ) → drop 1 (drop n xs) ≡ drop (suc n) xs
unfolding drop
drop-drop zero xs = refl
drop-drop (suc n) [] = refl
drop-drop (suc n) (x ∷ xs) = ground (arith, drop-drop n xs)

pushed_lem :
    (max_samples d : ℕ) (xs : List ℕ)
    → pushed max_samples d (newest max_samples xs) ≡ newest max_samples (xs ++ d ∷ [])
unfolding pushed
pushed_lem max_samples d xs = ground (
  arith,
  length-snoc xs d,
  length-snoc (newest max_samples xs) d,
  length-drop (length xs - max_samples) xs,
  drop-snoc (length xs - max_samples) xs d (omega arith),
  drop-drop (length xs - max_samples) (xs ++ d ∷ []),
)

drop-nil : (n : ℕ) → drop {A = ℕ} n [] ≡ []
unfolding drop
drop-nil zero = refl
drop-nil (suc n) = refl

newest-nil : (n : ℕ) → newest n [] ≡ []
newest-nil n = drop-nil (0 - n)

performed-Represents :
    (numbers : Numbers) (max_samples : ℕ) (op : Op) (samples : Samples) (history : History)
    → Represents max_samples samples history
    → Represents max_samples (performed numbers max_samples op samples) (specified op history)
unfolding performed specified record_duration flush bucket_of durations_of
performed-Represents numbers max_samples (records k d) samples history r key =
    elim (Bool-cases (k == key)) [
      | inl e ↦
          let same : k ≡ key = (string_eq.beq_iff k key).0 e in
          bucket_of-set_bucket k (pushed max_samples d (bucket_of k samples)) samples key
          ∙ ground (
            arith,
            e,
            same,
            r k,
            pushed_lem max_samples d (durations_of k history),
            durations_of-append key history k d,
          )
      | inr e ↦
          bucket_of-set_bucket k (pushed max_samples d (bucket_of k samples)) samples key
          ∙ ground (arith, e, r key, durations_of-append key history k d)
    ]
performed-Represents numbers max_samples flushes samples history r key =
    sym (newest-nil max_samples)

unfoldable pub perform_all : Numbers → ℕ → List Op → Samples → Samples
unfolding performed
perform_all numbers max_samples [] samples = samples
perform_all numbers max_samples (op ∷ ops) samples =
    perform_all numbers max_samples ops (performed numbers max_samples op samples)

unfoldable pub specify_all : List Op → History → History
unfolding specified
specify_all [] history = history
specify_all (op ∷ ops) history = specify_all ops (specified op history)

perform_all-Represents :
    (numbers : Numbers) (max_samples : ℕ) (ops : List Op) (samples : Samples) (history : History)
    → Represents max_samples samples history
    → Represents max_samples (perform_all numbers max_samples ops samples) (specify_all ops history)
unfolding perform_all specify_all
perform_all-Represents numbers max_samples [] samples history r = r
perform_all-Represents numbers max_samples (op ∷ ops) samples history r =
    perform_all-Represents numbers max_samples ops _ _
      (performed-Represents numbers max_samples op samples history r)

-- However records and flushes follow each other from the start, when metrics are enabled, the
-- bucket of a route is the newest durations, at most as many as a bucket may hold, of all that
-- were recorded for the route since the last flush.
pub bucket_of-perform_all :
    (numbers : Numbers) (max_samples : ℕ) (ops : List Op) (key : String)
    → bucket_of key (perform_all numbers max_samples ops [])
      ≡ newest max_samples (durations_of key (specify_all ops []))
unfolding bucket_of durations_of
bucket_of-perform_all numbers max_samples ops =
    perform_all-Represents numbers max_samples ops [] [] (λ key. sym (newest-nil max_samples))
