-- ===== src/Gslb/Select.antt =====
-- What `selectMembers` and `weightedSelect` of gslb/engine.go choose.
use dns_go.Base.{
  ℕ, ◌+◌, ◌%◌, ◌≤◌, ◌<◌, Bool, true, false, List, [], ◌∷◌, ◌++◌, some, ltb, if◌then◌else◌, ◌≡◌,
  refl, sym, ap, ◌∙◌, arith, nat_eq, ◌==◌, keep, is_nil, In, In-keep, All, keep-nil, Bool-cases,
  inl, inr, ltb→lt, ge_of_ltb,
}
use native.Mathlib.Nat.{mod-lt}
use dns_go.Base.Word.{add64, is_positive, half}
use dns_go.Gslb.Members.{
  Health, value, select_members, weighted_select, total_weight, find_pick, is_up, all_enabled,
}
use dns_go.Gslb.Types.{Member}

-- The share of a member: its weight, or 0 where that is not positive.
abbrev pub share : Member → ℕ
share m = if is_positive m.weight then m.weight else 0

abbrev pub sum_shares : List Member → ℕ
sum_shares [] = 0
sum_shares (m ∷ ms) = share m + sum_shares ms

sum_shares-keep-le : (p : Member → Bool) (ms : List Member) → sum_shares (keep p ms) ≤ sum_shares ms
sum_shares-keep-le p [] = omega arith
sum_shares-keep-le p (m ∷ ms) = ground (arith, sum_shares-keep-le p ms)

total_weight-sum_shares :
    (acc : ℕ) (ms : List Member)
    → acc + sum_shares ms < half
    → total_weight acc ms ≡ acc + sum_shares ms
unfolding total_weight
total_weight-sum_shares acc [] h = omega arith
total_weight-sum_shares acc (m ∷ ms) h = elim (Bool-cases (is_positive m.weight)) [
  | inl pos ↦ rw pos (ground (arith, total_weight-sum_shares (acc + m.weight) ms, pos))
  | inr no_share ↦ rw no_share (ground (arith, total_weight-sum_shares acc ms, no_share))
]

-- One round of the loop: the member is taken where the pick lies in its share, and passed over
-- where the pick lies beyond.
find_pick_take :
    (pick acc : ℕ) (x : Member) (ms : List Member)
    → acc + share x < half
    → acc ≤ pick
    → pick < acc + share x
    → find_pick pick acc (x ∷ ms) ≡ some x
unfolding find_pick
find_pick_take pick acc x ms h lo hi = ground arith

find_pick_pass :
    (pick acc : ℕ) (x : Member) (ms : List Member)
    → acc + share x < half
    → acc + share x ≤ pick
    → find_pick pick acc (x ∷ ms) ≡ find_pick pick (acc + share x) ms
unfolding find_pick
find_pick_pass pick acc x ms h lo = elim (Bool-cases (is_positive x.weight)) [
  | inl pos ↦
      let e : add64 acc x.weight ≡ acc + x.weight = ground (arith, pos) in
      let past : ltb pick (add64 acc x.weight) ≡ false = ground (arith, pos) in rw (pos, past, e)
  | inr no_share ↦ let e : acc + 0 ≡ acc = omega arith in rw (no_share, e)
]

find_pick-share :
    (pick acc : ℕ) (pre post : List Member) (m : Member)
    → acc + sum_shares (pre ++ m ∷ post) < half
    → acc + sum_shares pre ≤ pick
    → pick < acc + sum_shares pre + share m
    → find_pick pick acc (pre ++ m ∷ post) ≡ some m
find_pick-share pick acc [] post m h lo hi =
    find_pick_take pick acc m post (omega arith) (omega arith) (omega arith)
find_pick-share pick acc (x ∷ pre) post m h lo hi =
    find_pick_pass pick acc x (pre ++ m ∷ post) (omega arith) (omega arith)
    ∙ find_pick-share pick (acc + share x) pre post m (omega arith) (omega arith) (omega arith)

-- Where the pick lies within the total, a member is found.
find_pick-some :
    (pick acc : ℕ) (ms : List Member)
    → acc + sum_shares ms < half
    → acc ≤ pick
    → pick < acc + sum_shares ms
    → (m : Member) × (find_pick pick acc ms ≡ some m) × In m ms
find_pick-some pick acc [] h lo hi = absurd (omega arith)
find_pick-some pick acc (x ∷ ms) h lo hi = elim (Bool-cases (ltb pick (acc + share x))) [
  | inl here ↦ (
    x,
    find_pick_take pick acc x ms (omega arith) lo (ltb→lt pick (acc + share x) here),
    inl refl,
  )
  | inr past ↦
      let beyond : acc + share x ≤ pick = ge_of_ltb pick (acc + share x) past in
      let (m, e, at_m) =
        find_pick-some pick (acc + share x) ms (omega arith) beyond (omega arith) in
      (m, find_pick_pass pick acc x ms (omega arith) beyond ∙ e, inr at_m)
]

sum_shares-append : (xs ys : List Member) → sum_shares (xs ++ ys) ≡ sum_shares xs + sum_shares ys
sum_shares-append [] ys = omega arith
sum_shares-append (x ∷ xs) ys = omega (arith, sum_shares-append xs ys)

weighted_select-find_pick :
    (draw : ℕ) (ms : List Member) (m : Member)
    → sum_shares ms < half
    → 0 < sum_shares ms
    → find_pick (draw % sum_shares ms) 0 ms ≡ some m
    → weighted_select draw ms ≡ value (some m)
unfolding weighted_select
weighted_select-find_pick draw [] m h pos found = absurd (omega arith)
weighted_select-find_pick draw (x ∷ ms) m h pos found =
    let e : total_weight 0 (x ∷ ms) ≡ sum_shares (x ∷ ms) =
      omega (arith, total_weight-sum_shares 0 (x ∷ ms)) in
    let p : is_positive (sum_shares (x ∷ ms)) ≡ true = ground arith in
    let z : (sum_shares (x ∷ ms) == 0) ≡ false = ground arith in rw (e, p, z, found)

-- Each member answers on exactly as many of the draws below the total as its weight says: those
-- that lie behind the shares of the members before it and within its own. The weights add up to
-- an int64.
pub weighted_select-share :
    (draw : ℕ) (pre post : List Member) (m : Member)
    → sum_shares (pre ++ m ∷ post) < half
    → sum_shares pre ≤ draw % sum_shares (pre ++ m ∷ post)
    → draw % sum_shares (pre ++ m ∷ post) < sum_shares pre + share m
    → weighted_select draw (pre ++ m ∷ post) ≡ value (some m)
weighted_select-share draw pre post m h lo hi =
    weighted_select-find_pick draw (pre ++ m ∷ post) m h
      (omega (arith, sum_shares-append pre (m ∷ post)))
      (find_pick-share _ 0 pre post m (omega arith) (omega arith) (omega arith))

-- A choice among members that are there, or of nobody where there are none.
weighted_select-some :
    (draw : ℕ) (m : Member) (ms : List Member)
    → sum_shares (m ∷ ms) < half
    → (p : Member) × (weighted_select draw (m ∷ ms) ≡ value (some p)) × In p (m ∷ ms)
unfolding weighted_select
weighted_select-some draw m ms h = elim (Bool-cases (ltb 0 (sum_shares (m ∷ ms)))) [
  | inl pos ↦
      let (p, e, at_p) =
        find_pick-some (draw % sum_shares (m ∷ ms)) 0 (m ∷ ms) (omega arith) (omega arith)
          (omega (arith, mod-lt draw (ltb→lt 0 (sum_shares (m ∷ ms)) pos))) in
      (p, weighted_select-find_pick draw (m ∷ ms) p h (ltb→lt _ _ pos) e, at_p)
  | inr none_has ↦
      let e : total_weight 0 (m ∷ ms) ≡ 0 =
        omega
          (arith, total_weight-sum_shares 0 (m ∷ ms), ge_of_ltb 0 (sum_shares (m ∷ ms)) none_has) in
      (m, rw e, inl refl)
]

-- What `selectMembers` may answer: one member that is up; all enabled ones where none is up; and
-- nobody where none is enabled.
pub data Selects (health : Health) (ms : List Member) : List Member × Bool → Type 0 where
  one : (p : Member) → In p ms → is_up health p ≡ true → Selects health ms (p ∷ [], false)
  failed :
      (r : List Member)
      → All (λ m. is_up health m ≡ false) ms
      → r ≡ keep (λ m. m.enabled) ms
      → is_nil r ≡ false
      → Selects health ms (r, true)
  nobody : All (λ m. m.enabled ≡ false) ms → Selects health ms ([], false)

all_enabled-Selects :
    (health : Health) (ms : List Member)
    → All (λ m. is_up health m ≡ false) ms
    → Selects health ms (all_enabled ms)
unfolding all_enabled
all_enabled-Selects health ms down = go (keep (λ m. m.enabled) ms) refl
  where
    go :
        (r : List Member)
        → keep (λ m. m.enabled) ms ≡ r
        → Selects health ms (elim r [ [] ↦ ([], false) | x ∷ xs ↦ (x ∷ xs, true) ])
    go [] e = nobody (keep-nil _ ms e)
    go (x ∷ xs) e = failed (x ∷ xs) down (sym e) refl

-- `selectMembers` never panics where the weights add up to an int64: it answers with one member
-- that is up if there is one, else with all the enabled members, else with nobody.
pub select_members-Selects :
    (draw : ℕ) (health : Health) (ms : List Member)
    → sum_shares ms < half
    → (c : List Member × Bool) × (select_members draw health ms ≡ value c) × Selects health ms c
unfolding select_members
select_members-Selects draw health [] h = (([], false), refl, nobody tt)
select_members-Selects draw health (m ∷ ms) h = go (keep (is_up health) (m ∷ ms)) refl
  where
    go :
        (ups : List Member)
        → keep (is_up health) (m ∷ ms) ≡ ups
        → (c : List Member × Bool) × (select_members draw health (m ∷ ms) ≡ value c)
          × Selects health (m ∷ ms) c
    go [] e = (
      all_enabled (m ∷ ms),
      rw (e, select_members),
      all_enabled-Selects health (m ∷ ms) (keep-nil (is_up health) (m ∷ ms) e),
    )
    go (u ∷ us) e =
        let small = sum_shares-keep-le (is_up health) (m ∷ ms) in
        let (p, chosen, at_p) =
          weighted_select-some draw u us (omega (arith, small, ap sum_shares e)) in
        let (here, up) = In-keep (is_up health) p (m ∷ ms) (rw e at_p) in
        ((p ∷ [], false), rw (e, select_members, chosen), one p here up)
