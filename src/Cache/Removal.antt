-- ===== src/Cache/Removal.antt =====
-- `Delete` and `removeExpired` of dns/cache.go: exactly what they remove.
use dns_go.Base.{
  ℕ, ◌≤◌, [], ◌∷◌, ◌++◌, none, some, if◌then◌else◌, ◌≡◌, ◌≢◌, ◌∙◌, arith, nat_eq, Bool-cases, inl,
  inr, append_assoc, ◌↔◌,
}
use dns_go.Base.Map
use dns_go.Base.Map.{Map, keys}
use dns_go.Base.Text.{Text, text_eq}
use dns_go.Cache.{Entry, Cache, delete, remove_expired, make_key}
use dns_go.Cache.Size.{IsValid}
use dns_go.Cache.Read.{delete-dropped, remove_expired-dropped}
use dns_go.Cache.Size.{dropped-entries}
use dns_go.Cache.{is_domain_key, is_expired}
use dns_go.Base.Text.{has_prefix_append, has_prefix_split}

module _ {RR : Type 0} where
  delete_entries :
      (domain : Text) (c : Cache RR)
      → IsValid c
      → (k : Text)
      → Map.get k (delete domain c).entries
        ≡ (if is_domain_key domain k then none else Map.get k c.entries)
  delete_entries domain c v k =
      rw (delete-dropped domain c v)
        (ground (arith, dropped-entries (λ x. is_domain_key domain x.0) c v k, v.paired k))

  -- On a cache that keeps the invariant, `Delete` removes every answer whose key is the domain, a
  -- colon and any query type, and no other answer.
  pub delete_lem :
      (domain : Text) (c : Cache RR)
      → IsValid c
      → ((qtype : Text) → Map.get (make_key domain qtype) (delete domain c).entries ≡ none)
        × ((k : Text)
            → ((qtype : Text) → k ≢ make_key domain qtype)
            → Map.get k (delete domain c).entries ≡ Map.get k c.entries)
  unfolding make_key is_domain_key
  delete_lem domain c v = (
    λ qtype. ground (
      arith,
      delete_entries domain c v (domain ++ b':' ∷ qtype),
      has_prefix_append (domain ++ b':' ∷ []) qtype,
      append_assoc domain (b':' ∷ []) qtype,
    ),
    λ k other. elim (Bool-cases (is_domain_key domain k)) [
      | inr outside ↦ rw (delete_entries domain c v, outside)
      | inl inside ↦
          let (rest, e) = has_prefix_split k (domain ++ b':' ∷ []) inside in
          absurd (other rest (e ∙ append_assoc domain (b':' ∷ []) rest))
    ],
  )

  -- On a cache that keeps the invariant, the cleanup removes exactly the entries whose time is
  -- over.
  pub remove_expired_lem :
      (now : ℕ) (c : Cache RR)
      → IsValid c
      → (k : Text) (e : Entry RR)
      → (Map.get k (remove_expired now c).entries ≡ some e)
        ↔ ((Map.get k c.entries ≡ some e) × (now ≤ e.expiry))
  remove_expired_lem now c v k e = rw (remove_expired-dropped now c v) (
    λ h. ground (arith, dropped-entries (λ x. is_expired now x.1.entry) c v k, v.paired k),
    λ h. ground (arith, dropped-entries (λ x. is_expired now x.1.entry) c v k, v.paired k),
  )
