-- ===== src/Gslb/Runners/Single.antt =====
-- At most one goroutine runs a check of gslb/healthcheck_worker.go, but for those that have been
-- told to stop.
use dns_go.Base.{
  ℕ, ◌<◌, Bool, true, false, not, List, [], ◌∷◌, Option, none, some, Result, ok, err, if◌then◌else◌,
  nat_eq, ◌==◌, contains, keep, ◌≡◌, ◌≢◌, refl, ◌∙◌, sym, ap, arith, Bool-cases, Option-cases, inl,
  inr, In, In-keep, All, All-keep, All-In, nat_beq_iff,
}
use mathlib.Core.Path.{subst}
use dns_go.Base.Map
use dns_go.Base.Map.{Map}
use dns_go.Gslb.Types.{HealthCheck}
use dns_go.Gslb.Runners.{
  Loop, Worker, new_worker, start_check, add_check, remove_check, update_check, leave, start_all,
  start, restart,
}

-- No channel belongs to two goroutines.
abbrev IsDistinct : List Loop → Type 0
IsDistinct [] = Unit
IsDistinct (l ∷ ls) = All (λ m. m.channel ≢ l.channel) ls × IsDistinct ls

keep-IsDistinct : (p : Loop → Bool) (ls : List Loop) → IsDistinct ls → IsDistinct (keep p ls)
keep-IsDistinct p [] h = tt
keep-IsDistinct p (l ∷ ls) (alone, h) = elim (Bool-cases (p l)) [
  | inl pass ↦ rw pass (All-keep _ p ls alone, keep-IsDistinct p ls h)
  | inr drop ↦ rw drop (keep-IsDistinct p ls h)
]

IsDistinct-In :
    (ls : List Loop) (l m : Loop)
    → IsDistinct ls
    → In l ls
    → In m ls
    → l.channel ≡ m.channel
    → l ≡ m
IsDistinct-In [] l m h at at' e = absurd at
IsDistinct-In (x ∷ ls) l m (alone, h) (inl a) (inl b) e = a ∙ sym b
IsDistinct-In (x ∷ ls) l m (alone, h) (inl a) (inr b) e =
    absurd (All-In (λ y. y.channel ≢ x.channel) m ls alone b (sym e ∙ ap (λ y. y.channel) a))
IsDistinct-In (x ∷ ls) l m (alone, h) (inr a) (inl b) e =
    absurd (All-In (λ y. y.channel ≢ x.channel) l ls alone a (e ∙ ap (λ y. y.channel) b))
IsDistinct-In (x ∷ ls) l m (alone, h) (inr a) (inr b) e = IsDistinct-In ls l m h a b e

-- A goroutine that was not told to stop is the runner of its check; channels are used once.
pub record IsValid (w : Worker) : Type 0 where
  pub owned :
      (l : Loop)
      → In l w.loops
      → contains l.channel w.closed ≡ false
      → Map.get l.check.id w.runners ≡ some l.channel
  pub distinct : IsDistinct w.loops
  pub made : (l : Loop) → In l w.loops → l.channel < w.next_channel

All-made :
    (n : ℕ) (ls : List Loop) → ((l : Loop) → In l ls → l.channel < n) → All (λ m. m.channel ≢ n) ls
All-made n [] h = tt
All-made n (l ∷ ls) h =
    (λ e. omega (arith, h l (inl refl), e), All-made n ls (λ m at. h m (inr at)))

start_check-IsValid : (check : HealthCheck) (w : Worker) → IsValid w → IsValid (start_check check w)
unfolding start_check
start_check-IsValid check w v = elim (Option-cases (Map.get check.id w.runners)) [
  | inr (channel, running) ↦ rw (start_check, running) v
  | inl idle ↦
      rw (start_check, idle)
        record {
          owned = λ l at open_. elim at [
            | inl new ↦
                subst
                  (λ m.
                    Map.get m.check.id (Map.put check.id w.next_channel w.runners) ≡ some m.channel)
                  (sym new)
                  (ground (
                    arith,
                    Map.get-put check.id check.id w.next_channel w.runners,
                    nat_beq_iff check.id check.id,
                  ))
            | inr old ↦ ground (
              arith,
              v.owned l old open_,
              idle,
              Map.get-put check.id l.check.id w.next_channel w.runners,
              nat_beq_iff check.id l.check.id,
            )
          ];
          distinct = (All-made w.next_channel w.loops v.made, v.distinct);
          made = λ l at. elim at [
            | inl new ↦ omega (arith, ap (λ m. m.channel) new)
            | inr old ↦ omega (arith, v.made l old)
          ];
        }
]

add_check-IsValid : (check : HealthCheck) (w : Worker) → IsValid w → IsValid (add_check check w)
unfolding add_check
add_check-IsValid check w v = either check.enabled
  where
    either : (on : Bool) → IsValid (if on then start_check check w else w)
    either true = start_check-IsValid check w v
    either false = v

remove_check-IsValid : (id : ℕ) (w : Worker) → IsValid w → IsValid (remove_check id w)
unfolding remove_check
remove_check-IsValid id w v = elim (Option-cases (Map.get id w.runners)) [
  | inl idle ↦ rw (remove_check, idle) v
  | inr (channel, running) ↦
      rw (remove_check, running)
        record {
          owned = λ l at open_. ground (
            arith,
            v.owned l at,
            open_,
            running,
            Map.get-delete id l.check.id w.runners,
            nat_beq_iff id l.check.id,
            nat_beq_iff channel l.channel,
          );
          distinct = v.distinct;
          made = v.made;
        }
]

leave-IsValid : (l : Loop) (w : Worker) → IsValid w → IsValid (leave l w)
unfolding leave
leave-IsValid l w v = elim (Bool-cases (contains l.channel w.closed)) [
  | inr running ↦ rw (leave, running) v
  | inl stopped ↦
      rw (leave, stopped)
        record {
          owned = λ m at open_.
              let (there, other) = In-keep (λ x. not (x.channel == l.channel)) m w.loops at in
              ground (
                arith,
                other,
                v.owned m there open_,
                Map.get-delete l.check.id m.check.id w.runners,
                nat_beq_iff l.check.id m.check.id,
                nat_beq_iff m.channel l.channel,
              );
          distinct = keep-IsDistinct (λ x. not (x.channel == l.channel)) w.loops v.distinct;
          made = λ m at. v.made m (In-keep (λ x. not (x.channel == l.channel)) m w.loops at).0;
        }
]

start_all-IsValid :
    (checks : List HealthCheck) (w : Worker) → IsValid w → IsValid (start_all checks w)
unfolding start_all
start_all-IsValid [] w v = v
start_all-IsValid (check ∷ checks) w v =
    start_all-IsValid checks (add_check check w) (add_check-IsValid check w v)

start-IsValid :
    (listed : Result (List HealthCheck)) (w : Worker) → IsValid w → IsValid (start listed w)
unfolding start
start-IsValid err w v = v
start-IsValid (ok checks) w v = start_all-IsValid checks w v

-- What happens to a worker: its methods, and goroutines that return.
pub data Step : Type 0 where
  start_step : Result (List HealthCheck) → Step
  add_step : HealthCheck → Step
  remove_step : ℕ → Step
  update_step : HealthCheck → Step
  leave_step : Loop → Step
  restart_step : Result (List HealthCheck) → Step

unfoldable pub step : Step → Worker → Worker
step (start_step listed) w = start listed w
step (add_step check) w = add_check check w
step (remove_step id) w = remove_check id w
step (update_step check) w = update_check check w
step (leave_step l) w = leave l w
step (restart_step listed) w = restart listed w

-- The newest step stands first.
unfoldable pub after : List Step → Worker
after [] = new_worker
after (s ∷ steps) = step s (after steps)

step-IsValid : (s : Step) (w : Worker) → IsValid w → IsValid (step s w)
unfolding step update_check restart
step-IsValid (start_step listed) w v = start-IsValid listed w v
step-IsValid (add_step check) w v = add_check-IsValid check w v
step-IsValid (remove_step id) w v = remove_check-IsValid id w v
step-IsValid (update_step check) w v =
    add_check-IsValid check (remove_check check.id w) (remove_check-IsValid check.id w v)
step-IsValid (leave_step l) w v = leave-IsValid l w v
step-IsValid (restart_step listed) w v =
    start-IsValid listed _
      (record { owned = λ l at. absurd at; distinct = tt; made = λ l at. absurd at })

after-IsValid : (steps : List Step) → IsValid (after steps)
unfolding after new_worker
after-IsValid [] = record { owned = λ l at. absurd at; distinct = tt; made = λ l at. absurd at }
after-IsValid (s ∷ steps) = step-IsValid s (after steps) (after-IsValid steps)

-- After any calls and returns, two goroutines of the same check that were not told to stop are
-- one.
pub after_single :
    (steps : List Step) (l m : Loop)
    → In l (after steps).loops
    → In m (after steps).loops
    → contains l.channel (after steps).closed ≡ false
    → contains m.channel (after steps).closed ≡ false
    → l.check.id ≡ m.check.id
    → l ≡ m
after_single steps l m at at' open_ open_' same =
    let v = after-IsValid steps in
    IsDistinct-In (after steps).loops l m v.distinct at at'
      (ground (arith, v.owned l at open_, v.owned m at' open_', same))

remove_check-idle : (id : ℕ) (w : Worker) → Map.get id (remove_check id w).runners ≡ none
unfolding remove_check
remove_check-idle id w = elim (Option-cases (Map.get id w.runners)) [
  | inl idle ↦ rw (remove_check, idle) idle
  | inr (channel, running) ↦
      rw (remove_check, running) (ground (arith, Map.get-delete id id w.runners, nat_beq_iff id id))
]

update_check-started :
    (check : HealthCheck) (w : Worker)
    → check.enabled ≡ true
    → (l : Loop) × In l (update_check check w).loops
      × (l.check ≡ check)
      × (Map.get check.id (update_check check w).runners ≡ some l.channel)
unfolding update_check add_check start_check
update_check-started check w on =
    let r = remove_check check.id w in
    go check.enabled on (Map.get check.id r.runners) refl (remove_check-idle check.id w)
  where
    Started : Worker → Type 0
    Started w' =
        (l : Loop) × In l w'.loops
        × (l.check ≡ check)
        × (Map.get check.id w'.runners ≡ some l.channel)

    go :
        (b : Bool)
        → b ≡ true
        → (o : Option ℕ) → Map.get check.id (remove_check check.id w).runners ≡ o
        → o ≡ none
        → Started
            (if b then start_check check (remove_check check.id w) else remove_check check.id w)
    go false no_ o e idle = absurd (ground arith)
    go true yes_ (some c) e idle = absurd (ground arith)
    go true yes_ none e idle =
        rw (start_check, e)
          (
            record { check = check; channel = (remove_check check.id w).next_channel },
            inl refl,
            refl,
            ground (
              arith,
              Map.get-put check.id check.id (remove_check check.id w).next_channel
                  (remove_check check.id w).runners,
              nat_beq_iff check.id check.id,
            ),
          )

-- After `UpdateCheck` with an enabled check, in any history, every goroutine of that check that
-- was not told to stop runs the new settings.
after_update :
    (steps : List Step) (check : HealthCheck) (m : Loop)
    → check.enabled ≡ true
    → In m (after (update_step check ∷ steps)).loops
    → contains m.channel (after (update_step check ∷ steps)).closed ≡ false
    → m.check.id ≡ check.id
    → m.check ≡ check
unfolding after step
after_update steps check m on at open_ same =
    let v = after-IsValid (update_step check ∷ steps) in
    let (l, there, new, runner) = update_check-started check (after steps) on in
    let one : m ≡ l =
      IsDistinct-In (update_check check (after steps)).loops m l v.distinct at there
        (ground (arith, v.owned m at open_, runner, same)) in
    ap (λ x. x.check) one ∙ new
