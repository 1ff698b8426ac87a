-- ===== src/Base/Map.antt =====
-- Go maps as association lists, at most one entry for a key. The order of the list is the order
-- in which one `range` over the map meets its entries.
use Prim.Native.Nat.{◌+◌}
use mathlib.Core.Bool.{Bool, false, not}
use mathlib.Core.List.{List, [], ◌∷◌}
use mathlib.Core.Option.{Option, none, some}
use mathlib.Core.Path.{◌≡◌, refl, subst}
use mathlib.Core.Logic.{inl, inr}
use native.Mathlib.Omega.{arith}
use dns_go.Base.Test.{if◌then◌else◌, Eq, ◌==◌, Bool-cases}
use dns_go.Base.Lists.{length, keep, contains}

abbrev pub Map {ℓ κ} : Type ℓ → Type κ → Type (ℓ ⊔ κ)
Map K V = List (K × V)

abbrev pub keys {ℓ κ} : {K : Type ℓ} {V : Type κ} → Map K V → List K
keys [] = []
keys ((k, v) ∷ m) = k ∷ keys m

module _ {ℓ κ} {K : Type ℓ} {V : Type κ} ⦃e : Eq K⦄ where
  -- `v, ok := m[k]`
  unfoldable pub get : K → Map K V → Option V
  get k [] = none
  get k ((j, v) ∷ m) = if j == k then some v else get k m

  -- `m[k] = v`
  unfoldable pub put : K → V → Map K V → Map K V
  put k v [] = (k, v) ∷ []
  put k v ((j, w) ∷ m) = if j == k then (k, v) ∷ m else (j, w) ∷ put k v m

  -- `delete(m, k)`
  unfoldable pub delete : K → Map K V → Map K V
  delete k [] = []
  delete k ((j, w) ∷ m) = if j == k then delete k m else (j, w) ∷ delete k m

  -- No key stands twice.
  abbrev pub IsDistinct : Map K V → Type κ
  IsDistinct [] = Unit
  IsDistinct ((k, v) ∷ m) = (get k m ≡ none) × IsDistinct m

  pub get-put :
      (k j : K) (v : V) (m : Map K V) → get j (put k v m) ≡ (if k == j then some v else get j m)
  unfolding get put
  get-put k j v [] = refl
  get-put k j v ((i, w) ∷ m) =
      ground (arith, e.beq_iff k j, e.beq_iff i k, e.beq_iff i j, get-put k j v m)

  pub get-delete : (k j : K) (m : Map K V) → get j (delete k m) ≡ (if k == j then none else get j m)
  unfolding get delete
  get-delete k j [] = ground arith
  get-delete k j ((i, w) ∷ m) =
      ground (arith, e.beq_iff k j, e.beq_iff i k, e.beq_iff i j, get-delete k j m)

  pub put-IsDistinct : (k : K) (v : V) (m : Map K V) → IsDistinct m → IsDistinct (put k v m)
  unfolding put get
  put-IsDistinct k v [] h = (refl, tt)
  put-IsDistinct k v ((j, w) ∷ m) (fresh, h) =
      ground (arith, e.beq_iff j k, e.beq_iff k j, get-put k j v m, put-IsDistinct k v m h)

  pub delete-IsDistinct : (k : K) (m : Map K V) → IsDistinct m → IsDistinct (delete k m)
  unfolding delete
  delete-IsDistinct k [] h = tt
  delete-IsDistinct k ((j, w) ∷ m) (fresh, h) =
      ground (arith, e.beq_iff j k, get-delete k j m, delete-IsDistinct k m h)

  delete_absent : (k : K) (m : Map K V) → get k m ≡ none → delete k m ≡ m
  unfolding delete get
  delete_absent k [] h = refl
  delete_absent k ((j, w) ∷ m) h = ground (arith, delete_absent k m)

  pub length-delete :
      (k : K) (v : V) (m : Map K V)
      → IsDistinct m
      → get k m ≡ some v
      → length (delete k m) + 1 ≡ length m
  unfolding delete get
  length-delete k v [] d h = absurd (ground arith)
  length-delete k v ((j, w) ∷ m) (fresh, d) h =
      ground (arith, e.beq_iff j k, delete_absent k m, length-delete k v m d)

  pub length-put :
      (k : K) (v : V) (m : Map K V)
      → length (put k v m) ≡ elim (get k m) [ none ↦ length m + 1 | some _ ↦ length m ]
  unfolding put get
  length-put k v [] = refl
  length-put k v ((j, w) ∷ m) = ground (arith, length-put k v m)

  -- A loop that deletes every key of a list.
  unfoldable pub delete_all : List K → Map K V → Map K V
  delete_all [] m = m
  delete_all (k ∷ ks) m = delete_all ks (delete k m)

  pub get-delete_all :
      (ks : List K) (j : K) (m : Map K V)
      → get j (delete_all ks m) ≡ (if contains j ks then none else get j m)
  unfolding delete_all
  get-delete_all [] j m = refl
  get-delete_all (k ∷ ks) j m = ground (arith, get-delete_all ks j (delete k m), get-delete k j m)

  pub delete_all-IsDistinct :
      (ks : List K) (m : Map K V) → IsDistinct m → IsDistinct (delete_all ks m)
  unfolding delete_all
  delete_all-IsDistinct [] m h = h
  delete_all-IsDistinct (k ∷ ks) m h =
      delete_all-IsDistinct ks (delete k m) (delete-IsDistinct k m h)

  delete_all-cons :
      (ks : List K) (j : K) (w : V) (m : Map K V)
      → contains j ks ≡ false
      → delete_all ks ((j, w) ∷ m) ≡ (j, w) ∷ delete_all ks m
  unfolding delete_all delete
  delete_all-cons [] j w m h = refl
  delete_all-cons (k ∷ ks) j w m h =
      ground (arith, e.beq_iff j k, e.beq_iff k j, delete_all-cons ks j w (delete k m))

  contains-keys-keep :
      (p : K × V → Bool) (j : K) (m : Map K V)
      → get j m ≡ none
      → contains j (keys (keep p m)) ≡ false
  unfolding get
  contains-keys-keep p j [] h = refl
  contains-keys-keep p j ((i, w) ∷ m) h = ground (arith, contains-keys-keep p j m)

  -- Deleting the keys that a loop has collected leaves the entries that it passed over.
  pub delete_all-keep :
      (p : K × V → Bool) (m : Map K V)
      → IsDistinct m
      → delete_all (keys (keep p m)) m ≡ keep (λ x. not (p x)) m
  unfolding delete_all delete
  delete_all-keep p [] h = refl
  delete_all-keep p ((j, w) ∷ m) (fresh, h) = elim (Bool-cases (p (j, w))) [
    | inl yes' ↦
        rw yes' (ground (arith, e.beq_iff j j, delete_absent j m fresh, delete_all-keep p m h))
    | inr no' ↦ rw no' (
        ground (
          arith,
          delete_all-cons (keys (keep p m)) j w m (contains-keys-keep p j m fresh),
          delete_all-keep p m h,
        ))
  ]

  pub get-keep :
      (p : K × V → Bool) (j : K) (m : Map K V)
      → IsDistinct m
      → get j (keep p m)
        ≡ elim (get j m) [ none ↦ none | some v ↦ if p (j, v) then some v else none ]
  unfolding get
  get-keep p j [] h = refl
  get-keep p j ((i, w) ∷ m) (fresh, h) = elim (Bool-cases (i == j)) [
    | inl same ↦
        subst
          (λ k. get k (keep p ((i, w) ∷ m)) ≡ elim (get k ((i, w) ∷ m)) [
            | none ↦ none
            | some v ↦ if p (k, v) then some v else none
          ])
          ((e.beq_iff i j).0 same) (ground (arith, e.beq_iff i i, get-keep p i m h))
    | inr other ↦ ground (arith, get-keep p j m h)
  ]

  pub keep-IsDistinct : (p : K × V → Bool) (m : Map K V) → IsDistinct m → IsDistinct (keep p m)
  keep-IsDistinct p [] h = tt
  keep-IsDistinct p ((i, w) ∷ m) (fresh, h) =
      ground (arith, get-keep p i m h, keep-IsDistinct p m h)

  pub contains-keys :
      (p : K × V → Bool) (j : K) (m : Map K V)
      → IsDistinct m
      → contains j (keys (keep p m)) ≡ elim (get j m) [ none ↦ false | some v ↦ p (j, v) ]
  unfolding get
  contains-keys p j [] h = refl
  contains-keys p j ((i, w) ∷ m) (fresh, h) = elim (Bool-cases (i == j)) [
    | inl same ↦
        subst
          (λ k.
            contains k (keys (keep p ((i, w) ∷ m)))
            ≡ elim (get k ((i, w) ∷ m)) [ none ↦ false | some v ↦ p (k, v) ])
          ((e.beq_iff i j).0 same) (ground (arith, e.beq_iff i i, contains-keys p i m h))
    | inr other ↦ ground (arith, contains-keys p j m h)
  ]

pub length-keys {ℓ κ} : {K : Type ℓ} {V : Type κ} (m : Map K V) → length (keys m) ≡ length m
length-keys [] = refl
length-keys ((k, v) ∷ m) = omega (arith, length-keys m)
