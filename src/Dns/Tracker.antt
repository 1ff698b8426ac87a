-- ===== src/Dns/Tracker.antt =====
-- `lastQueryTracker` of dns/query_tracker.go: the last time of a query for each domain, kept in
-- memory and written in batches by one goroutine.
pub mod Latest
use dns_go.Base.{
  ℕ, Bool, List, [], ◌∷◌, Option, none, some, ltb, if◌then◌else◌, nat_eq, ◌==◌, is_nil,
}
use dns_go.Base.Map
use dns_go.Base.Map.{Map}
use dns_go.Base.Text.{Text, text_eq}

-- The step that `Record` and `requeue` share: a time is stored unless a later one is there.
unfoldable pub raise : Text → ℕ → Map Text ℕ → Map Text ℕ
raise domain queried_at pending = elim (Map.get domain pending) [
  | none ↦ Map.put domain queried_at pending
  | some prev ↦ if ltb prev queried_at then Map.put domain queried_at pending else pending
]

unfoldable pub record_query : Text → ℕ → Map Text ℕ → Map Text ℕ
record_query domain queried_at pending =
    if domain == [] then pending else raise domain queried_at pending

unfoldable pub requeue : Map Text ℕ → Map Text ℕ → Map Text ℕ
requeue [] pending = pending
requeue ((domain, queried_at) ∷ batch) pending = requeue batch (raise domain queried_at pending)

-- `batch` is what `flush` has taken and not yet finished with; `written` lists the batches that
-- the writer has taken without an error.
pub record Tracker : Type 0 where
  pub pending : Map Text ℕ
  pub batch : Map Text ℕ
  pub written : List (Map Text ℕ)

unfoldable pub new_tracker : Tracker
new_tracker = record { pending = []; batch = []; written = [] }

-- `takePending`, at the start of a `flush`. There is one flusher: it takes nothing while it has a
-- batch in hand.
unfoldable pub take_pending : Tracker → Tracker
take_pending t = if is_nil t.batch then record t { pending = []; batch = t.pending } else t

-- What `flush` does once the writer has answered.
unfoldable pub flushed : Tracker → Tracker
flushed t = if is_nil t.batch then t else record t { batch = []; written = t.batch ∷ t.written }

unfoldable pub failed : Tracker → Tracker
failed t = record t { pending = requeue t.batch t.pending; batch = [] }

-- What happens to a tracker: a query at any time, and the steps of `flush`.
pub data Step : Type 0 where
  query : Text → ℕ → Step
  take : Step
  write_done : Step
  write_failed : Step

unfoldable pub step : Step → Tracker → Tracker
step (query domain queried_at) t = record t { pending = record_query domain queried_at t.pending }
step take t = take_pending t
step write_done t = flushed t
step write_failed t = failed t

-- The newest step stands first.
unfoldable pub after : List Step → Tracker
after [] = new_tracker
after (s ∷ steps) = step s (after steps)
