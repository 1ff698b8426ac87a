-- ===== src/Gslb/Health/Hysteresis.antt =====
-- When `runCheck` of gslb/healthcheck_worker.go turns a member unhealthy, and healthy again.
use dns_go.Base.{
  ℕ, ◌+◌, ◌≤◌, ◌<◌, Bool, true, false, ◌||◌, List, [], ◌∷◌, ◌++◌, Option, none, some, if◌then◌else◌,
  ◌≡◌, refl, ◌∙◌, arith, ◌↔◌, leb, length, nat_eq, ◌==◌, Bool-cases, inl, inr, nat_beq_iff, ap, sym,
}
use dns_go.Base.Map
use dns_go.Base.Map.{Map}
use dns_go.Base.Text.{Text}
use dns_go.Base.Word.{half}
use dns_go.Gslb.Health.{get_status, observe, run_check}
use dns_go.Gslb.Members.{is_healthy}
use dns_go.Gslb.Types.{HealthCheck, HealthStatus, Member}

-- How many results at the head of a list are `b`.
abbrev pub streak : Bool → List Bool → ℕ
streak b [] = 0
streak true (true ∷ rs) = streak true rs + 1
streak true (false ∷ rs) = 0
streak false (false ∷ rs) = streak false rs + 1
streak false (true ∷ rs) = 0

-- Whether `n` results in a row are `b` somewhere in a list.
abbrev pub has_run : Bool → ℕ → List Bool → Bool
has_run b n [] = false
has_run b n (r ∷ rs) = leb n (streak b (r ∷ rs)) || has_run b n rs

-- The latest results, newest first, say that a member is down: it failed `u` times in a row, and
-- has not succeeded `h` times in a row since.
abbrev pub IsDown : ℕ → ℕ → List Bool → Type 0
IsDown h u rs =
    (since : List Bool) × (before : List Bool) × (rs ≡ since ++ before)
    × (u ≤ streak false before)
    × (has_run true h since ≡ false)

-- The results, newest first, as `runCheck` judges them one by one.
abbrev verdict : ℕ → ℕ → List Bool → Bool
verdict h u [] = true
verdict h u (true ∷ rs) = if leb h (streak true rs + 1) then true else verdict h u rs
verdict h u (false ∷ rs) = if leb u (streak false rs + 1) then false else verdict h u rs

-- Successes just before a failure do not reach into what came before it.
streak-append :
    (since before : List Bool)
    → 1 ≤ streak false before
    → streak true (since ++ before) ≡ streak true since
streak-append [] (true ∷ before) h = absurd (omega arith)
streak-append [] (false ∷ before) h = refl
streak-append [] [] h = refl
streak-append (true ∷ since) before h = omega (arith, streak-append since before h)
streak-append (false ∷ since) before h = refl

module _ (h u : ℕ) (hh : 0 < h) (hu : 0 < u) where
  verdict-IsDown : (rs : List Bool) → verdict h u rs ≡ false → IsDown h u rs
  verdict-IsDown [] e = absurd (ground arith)
  verdict-IsDown (true ∷ rs) e = elim (Bool-cases (leb h (streak true rs + 1))) [
    | inl up ↦ absurd (ground (arith, up))
    | inr short ↦
        let (since, before, split, down, calm) = verdict-IsDown rs (ground (arith, short)) in
        (
          true ∷ since,
          before,
          ap (λ l. true ∷ l) split,
          down,
          ground (
            arith,
            streak-append since before (omega (arith, hu, down)),
            ap (streak true) split,
            calm,
            short,
          ),
        )
  ]
  verdict-IsDown (false ∷ rs) e = elim (Bool-cases (leb u (streak false rs + 1))) [
    | inl down ↦ ([], false ∷ rs, refl, ground (arith, down), refl)
    | inr short ↦
        let (since, before, split, down, calm) = verdict-IsDown rs (ground (arith, short)) in
        (false ∷ since, before, ap (λ l. false ∷ l) split, down, ground (arith, calm, hh))
  ]

  IsDown-verdict :
      (since before : List Bool)
      → u ≤ streak false before
      → has_run true h since ≡ false
      → verdict h u (since ++ before) ≡ false
  IsDown-verdict [] [] down calm = absurd (omega (arith, hu))
  IsDown-verdict [] (true ∷ before) down calm = absurd (omega (arith, hu))
  IsDown-verdict [] (false ∷ before) down calm = ground arith
  IsDown-verdict (true ∷ since) before down calm =
      ground
        (arith, IsDown-verdict since before down, streak-append since before (omega (arith, hu)))
  IsDown-verdict (false ∷ since) before down calm = ground (arith, IsDown-verdict since before down)

-- A probe that came back: when, of which member, and with which error.
pub record Probe : Type 0 where
  pub at_time : ℕ
  pub member : Member
  pub outcome : Option Text

abbrev succeeded : Option Text → Bool
succeeded none = true
succeeded (some error) = false

-- The results of one member among those of all, in the same order.
abbrev pub results : ℕ → List Probe → List Bool
results id [] = []
results id (p ∷ ps) =
    if p.member.id == id then succeeded p.outcome ∷ results id ps else results id ps

-- The statuses after all probes of a check; the newest probe stands first.
unfoldable pub after : HealthCheck → List Probe → Map ℕ HealthStatus
after check [] = []
after check (p ∷ ps) = run_check p.at_time check p.outcome p.member (after check ps)

get_status-run_check :
    (now : ℕ) (check : HealthCheck) (o : Option Text) (m : Member) (id : ℕ)
    (statuses : Map ℕ HealthStatus)
    → get_status id (run_check now check o m statuses) ≡ (
        if m.id == id then observe now check o (get_status id statuses) else get_status id statuses)
unfolding get_status run_check
get_status-run_check now check o m id statuses = ground (
  arith,
  Map.get-put m.id id (observe now check o (get_status m.id statuses)) statuses,
  nat_beq_iff m.id id,
)

module _ (check : HealthCheck) where
  -- The counters of a status are the streaks of its member, and its health is their verdict.
  record Tracks (rs : List Bool) (status : HealthStatus) : Type 0 where
    oks : status.consecutive_oks ≡ streak true rs
    fails : status.consecutive_fails ≡ streak false rs
    judged : status.healthy ≡ verdict check.healthy_threshold check.unhealthy_threshold rs

  observe-Tracks :
      (now : ℕ) (o : Option Text) (rs : List Bool) (status : HealthStatus)
      → check.healthy_threshold < half
      → check.unhealthy_threshold < half
      → streak true rs + 1 < half
      → streak false rs + 1 < half
      → Tracks rs status
      → Tracks (succeeded o ∷ rs) (observe now check o status)
  unfolding observe
  observe-Tracks now none rs status h u small small' t = record {
    oks = omega (arith, t.oks);
    fails = refl;
    judged = ground (arith, t.oks, t.judged);
  }
  observe-Tracks now (some error) rs status h u small small' t = record {
    oks = refl;
    fails = omega (arith, t.fails);
    judged = ground (arith, t.fails, t.judged);
  }

  streak-le : (b : Bool) (rs : List Bool) → streak b rs ≤ length rs
  streak-le b [] = omega arith
  streak-le true (true ∷ rs) = omega (arith, streak-le true rs)
  streak-le true (false ∷ rs) = omega arith
  streak-le false (false ∷ rs) = omega (arith, streak-le false rs)
  streak-le false (true ∷ rs) = omega arith

  results-le : (id : ℕ) (ps : List Probe) → length (results id ps) ≤ length ps
  results-le id [] = omega arith
  results-le id (p ∷ ps) = ground (arith, results-le id ps)

  after-Tracks :
      (id : ℕ) (ps : List Probe)
      → check.healthy_threshold < half
      → check.unhealthy_threshold < half
      → length ps < half
      → Tracks (results id ps) (get_status id (after check ps))
  unfolding after
  after-Tracks id [] h u small =
      unfold get_status Map.get in record { oks = refl; fails = refl; judged = refl }
  after-Tracks id (p ∷ ps) h u small =
      let t = after-Tracks id ps h u (omega arith) in
      let rs = results id ps in
      elim (Bool-cases (p.member.id == id)) [
        | inl here ↦
            rw (get_status-run_check p.at_time check p.outcome p.member id (after check ps), here)
              (observe-Tracks p.at_time p.outcome rs (get_status id (after check ps)) h u
                (omega (arith, streak-le true rs, results-le id ps))
                (omega (arith, streak-le false rs, results-le id ps)) t)
        | inr other ↦
            rw (get_status-run_check p.at_time check p.outcome p.member id (after check ps), other)
              t
      ]

  is_healthy-get_status :
      (m : Member) (statuses : Map ℕ HealthStatus)
      → is_healthy (some statuses) m ≡ (get_status m.id statuses).healthy
  unfolding is_healthy get_status
  is_healthy-get_status m statuses = ground arith

  -- After the probes of a check, the engine takes a member for unhealthy exactly if it failed as
  -- often in a row as the threshold says, and has not succeeded as often in a row as the other
  -- threshold says since. The thresholds are positive int64, and the probes fewer than 2 ^ 63.
  pub after-IsDown :
      (m : Member) (ps : List Probe)
      → 0 < check.healthy_threshold
      → check.healthy_threshold < half
      → 0 < check.unhealthy_threshold
      → check.unhealthy_threshold < half
      → length ps < half
      → (is_healthy (some (after check ps)) m ≡ false)
        ↔ IsDown check.healthy_threshold check.unhealthy_threshold (results m.id ps)
  after-IsDown m ps h h' u u' small =
      let t = after-Tracks m.id ps h' u' small in
      (
        λ e.
            verdict-IsDown check.healthy_threshold check.unhealthy_threshold h u (results m.id ps)
              (sym t.judged ∙ sym (is_healthy-get_status m (after check ps)) ∙ e),
        λ (since, before, split, down, calm).
            is_healthy-get_status m (after check ps)
            ∙ t.judged
            ∙ rw split (
                IsDown-verdict check.healthy_threshold check.unhealthy_threshold h u since before
                  down calm),
      )
