-- ===== src/Gslb/Runners.antt =====
-- The running checks of `HealthCheckWorker` in gslb/healthcheck_worker.go: which goroutines run
-- `runCheckLoop`, and which channels stop them.
pub mod Single
use dns_go.Base.{
  ℕ, ◌+◌, Bool, true, false, not, List, [], ◌∷◌, ◌++◌, Option, none, some, Result, ok, err,
  if◌then◌else◌, nat_eq, ◌==◌, contains, keep,
}
use dns_go.Base.Map
use dns_go.Base.Map.{Map}
use dns_go.Gslb.Types.{HealthCheck}

-- A goroutine in `runCheckLoop`, with its `stopCh`; channels are numbered as they are made.
pub record Loop : Type 0 where
  pub check : HealthCheck
  pub channel : ℕ

pub record Worker : Type 0 where
  pub runners : Map ℕ ℕ
  pub loops : List Loop
  pub closed : List ℕ
  pub next_channel : ℕ

unfoldable pub new_worker : Worker
new_worker = record { runners = []; loops = []; closed = []; next_channel = 0 }

unfoldable pub start_check : HealthCheck → Worker → Worker
start_check check w = elim (Map.get check.id w.runners) [
  | some _ ↦ w
  | none ↦ record {
    runners = Map.put check.id w.next_channel w.runners;
    loops = record { check = check; channel = w.next_channel } ∷ w.loops;
    closed = w.closed;
    next_channel = w.next_channel + 1;
  }
]

unfoldable pub add_check : HealthCheck → Worker → Worker
add_check check w = if check.enabled then start_check check w else w

unfoldable pub remove_check : ℕ → Worker → Worker
remove_check id w = elim (Map.get id w.runners) [
  | none ↦ w
  | some channel ↦ record w { runners = Map.delete id w.runners; closed = channel ∷ w.closed }
]

unfoldable pub update_check : HealthCheck → Worker → Worker
update_check check w = add_check check (remove_check check.id w)

-- `runCheckLoop` returns once its channel is closed, and takes its own entry out of `runners`.
unfoldable pub leave : Loop → Worker → Worker
leave l w =
    if contains l.channel w.closed
    then record w {
      loops = keep (λ m. not (m.channel == l.channel)) w.loops;
      runners = elim (Map.get l.check.id w.runners) [
        | none ↦ w.runners
        | some channel ↦ if channel == l.channel then Map.delete l.check.id w.runners else w.runners
      ];
    }
    else w

abbrev channels : Map ℕ ℕ → List ℕ
channels [] = []
channels ((id, channel) ∷ m) = channel ∷ channels m

-- The loop of `Start`, and of the end of `Restart`.
unfoldable pub start_all : List HealthCheck → Worker → Worker
start_all [] w = w
start_all (check ∷ checks) w = start_all checks (add_check check w)

unfoldable pub start : Result (List HealthCheck) → Worker → Worker
start err w = w
start (ok checks) w = start_all checks w

-- `Restart` closes all channels, waits until every goroutine has returned, and starts again.
unfoldable pub restart : Result (List HealthCheck) → Worker → Worker
restart listed w =
    start listed (record w { runners = []; loops = []; closed = channels w.runners ++ w.closed })
