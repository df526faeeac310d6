-- ===== src/Tests/Metrics.antt =====
-- Runs of the metrics store.
use sentinel_adc.Base.{◌≡◌, refl, true, false, some, [], ◌∷◌, lookup, insert}
use sentinel_adc.Metrics.{MetricsStore, init_history}
use sentinel_adc.Metrics.Cleaning.{Log}
use sentinel_adc.Tests.{pool}

abbrev metrics : MetricsStore
metrics = record { history = init_history pool []; pool = pool }

starts_empty : lookup "a" metrics.history ≡ some []
unfolding init_history lookup insert
starts_empty = refl

-- The first of three transactions is older than a minute at the last one.
abbrev log : Log
log = (300, false, 90000, 90001) ∷ (200, true, 50000, 50000) ∷ (100, false, 10, 12) ∷ []
