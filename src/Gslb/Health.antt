-- ===== src/Gslb/Health.antt =====
-- The health of members as `HealthCheckWorker` of gslb/healthcheck_worker.go keeps it. What a
-- probe comes to is an argument: `none` where it succeeds, else the text of its error.
pub mod Hysteresis
use dns_go.Base.{
  ℕ, ◌+◌, Bool, true, false, List, [], ◌∷◌, Option, none, some, if◌then◌else◌, nat_eq, Result, ok,
  err, ◌%◌,
}
use dns_go.Base.Map
use dns_go.Base.Map.{Map}
use dns_go.Base.Text.{Text}
use dns_go.Base.Word.{add64, slt}
use dns_go.Gslb.Database.{Database}
use dns_go.Gslb.Pools.{PoolStorage, get_pools_by_policy, get_members_by_pool}
use dns_go.Gslb.Types.{HealthCheck, HealthStatus, Member, Pool}

unfoldable pub get_status : ℕ → Map ℕ HealthStatus → HealthStatus
get_status member_id statuses = elim (Map.get member_id statuses) [
  | some status ↦ status
  | none ↦ record {
    healthy = true;
    consecutive_fails = 0;
    consecutive_oks = 0;
    last_check = 0;
    last_error = [];
  }
]

-- The branches of `runCheck` on the outcome of the probe.
unfoldable pub observe : ℕ → HealthCheck → Option Text → HealthStatus → HealthStatus
observe now check none status =
    let oks = add64 status.consecutive_oks 1 in
    record {
      healthy = if slt oks check.healthy_threshold then status.healthy else true;
      consecutive_fails = 0;
      consecutive_oks = oks;
      last_check = now;
      last_error = [];
    }
observe now check (some error) status =
    let fails = add64 status.consecutive_fails 1 in
    record {
      healthy = if slt fails check.unhealthy_threshold then status.healthy else false;
      consecutive_fails = fails;
      consecutive_oks = 0;
      last_check = now;
      last_error = error;
    }

unfoldable pub run_check :
    ℕ → HealthCheck → Option Text → Member → Map ℕ HealthStatus → Map ℕ HealthStatus
run_check now check outcome member statuses =
    Map.put member.id (observe now check outcome (get_status member.id statuses)) statuses

-- The loop over the members of a pool: disabled ones are passed over.
unfoldable pub check_members :
    (ℕ → Member → Option Text)
    → ℕ
    → HealthCheck
    → List Member
    → Map ℕ HealthStatus
    → Map ℕ HealthStatus
check_members probe now check [] statuses = statuses
check_members probe now check (m ∷ ms) statuses =
    check_members probe now check ms
      (if m.enabled then run_check now check (probe now m) m statuses else statuses)

module _ (d : Database) where
  -- The loop over the pools: one whose members cannot be read is passed over.
  unfoldable pub check_pools :
      (ℕ → Member → Option Text)
      → ℕ
      → HealthCheck
      → List Pool
      → PoolStorage d × Map ℕ HealthStatus
      → PoolStorage d × Map ℕ HealthStatus
  check_pools probe now check [] (s, statuses) = (s, statuses)
  check_pools probe now check (p ∷ ps) (s, statuses) =
      let (answer, s') = get_members_by_pool d now p.id s in
      check_pools probe now check ps
        (s', elim answer [ err ↦ statuses | ok ms ↦ check_members probe now check ms statuses ])

  -- `runPolicyCheck` of a check that is not running already.
  unfoldable pub run_policy_check :
      (ℕ → Member → Option Text)
      → ℕ
      → HealthCheck
      → PoolStorage d × Map ℕ HealthStatus
      → PoolStorage d × Map ℕ HealthStatus
  run_policy_check probe now check (s, statuses) =
      let (answer, s') = get_pools_by_policy d now check.policy_id s in
      elim answer [
        | err ↦ (s', statuses)
        | ok pools ↦ check_pools probe now check pools (s', statuses)
      ]
