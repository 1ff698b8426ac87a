-- ===== src/Gslb/Members.antt =====
-- `selectMembers` and `weightedSelect` of gslb/engine.go: which members of a pool answer. A random
-- number is an argument: the draw of `Int63n(total)` is `draw % total`.
use dns_go.Base.{
  ℕ, ◌%◌, Bool, true, false, ◌&&◌, List, [], ◌∷◌, Option, none, some, ltb, if◌then◌else◌, nat_eq,
  ◌==◌, keep,
}
use dns_go.Base.Map
use dns_go.Base.Map.{Map}
use dns_go.Base.Text.{text_eq}
use dns_go.Base.Word.{add64, is_positive}
use dns_go.Gslb.Types.{Member, HealthStatus}

-- `healthStatus`, a map of member ids; `none` is the nil pointer.
abbrev pub Health : Type 0
Health = Option (Map ℕ HealthStatus)

unfoldable pub is_healthy : Health → Member → Bool
is_healthy none m = true
is_healthy (some health) m = elim (Map.get m.id health) [
  | none ↦ true
  | some status ↦ status.healthy
]

-- The loop that adds up the positive weights, in int64.
unfoldable pub total_weight : ℕ → List Member → ℕ
total_weight total [] = total
total_weight total (m ∷ ms) =
    total_weight (if is_positive m.weight then add64 total m.weight else total) ms

-- The loop that finds the member whose share holds `pick`.
unfoldable pub find_pick : ℕ → ℕ → List Member → Option Member
find_pick pick acc [] = none
find_pick pick acc (m ∷ ms) =
    let next = find_pick pick (add64 acc m.weight) ms in
    let same = find_pick pick acc ms in
    if is_positive m.weight then if ltb pick (add64 acc m.weight) then some m else next else same

-- What a call comes to: a value, or the panic of `Int63n` on a total that is negative.
pub data Run {ℓ} (A : Type ℓ) : Type ℓ where
  value : A → Run A
  panic : Run A

unfoldable pub weighted_select : ℕ → List Member → Run (Option Member)
weighted_select draw [] = value none
weighted_select draw (m ∷ ms) =
    let total = total_weight 0 (m ∷ ms) in
    if total == 0
    then value (some m)
    else if is_positive total
    then elim (find_pick (draw % total) 0 (m ∷ ms)) [
      | some p ↦ value (some p)
      | none ↦ value (some m)
    ]
    else panic

abbrev pub is_up : Health → Member → Bool
is_up health m = m.enabled && is_healthy health m

-- The last step of `selectMembers`: all enabled members, and whether there are any.
unfoldable pub all_enabled : List Member → List Member × Bool
all_enabled members = elim (keep (λ m. m.enabled) members) [
  | [] ↦ ([], false)
  | m ∷ ms ↦ (m ∷ ms, true)
]

-- The members that answer, and whether every enabled one has failed.
unfoldable pub select_members : ℕ → Health → List Member → Run (List Member × Bool)
select_members draw health [] = value ([], false)
select_members draw health (m ∷ ms) = elim (keep (is_up health) (m ∷ ms)) [
  | [] ↦ value (all_enabled (m ∷ ms))
  | h ∷ hs ↦ elim (weighted_select draw (h ∷ hs)) [
    | panic ↦ panic
    | value (some p) ↦ value (p ∷ [], false)
    | value none ↦ value (all_enabled (m ∷ ms))
  ]
]
