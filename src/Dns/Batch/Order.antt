-- ===== src/Dns/Batch/Order.antt =====
-- What `bufferedBatch` of dns/buffered_batch.go makes of the entries that it is given.
use dns_go.Base.{
  ℕ, ◌≤◌, Bool, true, List, [], ◌∷◌, ◌++◌, if◌then◌else◌, length, is_nil, leb, ◌≡◌, refl, ◌∙◌, sym,
  ap, arith, Bool-cases, inl, inr, append_assoc, append-nil, length-append,
}
use dns_go.Dns.Batch.{BufferedBatch, new_buffered_batch, add, take_pending, flush}

pub data Step (T : Type 0) : Type 0 where
  add_step : T → Step T
  flush_step : Bool → Step T

module _ {T : Type 0} where
  unfoldable pub step : Step T → BufferedBatch T → BufferedBatch T
  step (add_step entry) b = (add entry b).0
  step (flush_step fine) b = flush fine b

  -- The steps in their order.
  unfoldable pub run : List (Step T) → BufferedBatch T → BufferedBatch T
  run [] b = b
  run (s ∷ steps) b = run steps (step s b)

  -- The entries that `add` accepts in a run.
  unfoldable pub accepted : List (Step T) → BufferedBatch T → List T
  accepted [] b = []
  accepted (add_step entry ∷ steps) b =
      let rest = accepted steps (add entry b).0 in if (add entry b).1 then entry ∷ rest else rest
  accepted (flush_step fine ∷ steps) b = accepted steps (flush fine b)

  -- All that was given to `flushBatch`, the oldest first.
  abbrev pub all_given : List (List T) → List T
  all_given [] = []
  all_given (batch ∷ batches) = all_given batches ++ batch

  abbrev held : BufferedBatch T → List T
  held b = all_given b.given ++ b.pending

  flush-held : (fine : Bool) (b : BufferedBatch T) → held (flush fine b) ≡ held b
  unfolding flush take_pending
  flush-held fine b = elim (Bool-cases (is_nil b.pending)) [
    | inl empty ↦ rw empty (ap (λ p. all_given b.given ++ p) (sym (nothing b.pending empty)))
    | inr full ↦ elim (Bool-cases fine) [
      | inl good ↦ rw (full, good) (append-nil (all_given b.given ++ b.pending))
      | inr bad ↦ rw (full, bad) (append-nil (all_given b.given ++ b.pending))
    ]
  ]
    where
      nothing : (p : List T) → is_nil p ≡ true → p ≡ []
      nothing [] h = refl
      nothing (x ∷ p) h = absurd (ground arith)

  run-held :
      (steps : List (Step T)) (b : BufferedBatch T)
      → held (run steps b) ≡ held b ++ accepted steps b
  unfolding run step accepted
  run-held [] b = sym (append-nil (held b))
  run-held (flush_step fine ∷ steps) b =
      run-held steps (flush fine b)
      ∙ ap (λ h. h ++ accepted steps (flush fine b)) (flush-held fine b)
  run-held (add_step entry ∷ steps) b = run-held steps (add entry b).0 ∙ added
    where
      added :
          held (add entry b).0 ++ accepted steps (add entry b).0
          ≡ held b ++ accepted (add_step entry ∷ steps) b
      added = elim (Bool-cases (leb b.buffer_size (length b.pending))) [
        | inl full ↦ unfold add in rw full refl
        | inr room ↦
            unfold add in
            rw room (
              ap (λ h. h ++ accepted steps (record b { pending = b.pending ++ entry ∷ [] }))
                (sym (append_assoc (all_given b.given) b.pending (entry ∷ [])))
              ∙ append_assoc (all_given b.given ++ b.pending) (entry ∷ [])
                  (accepted steps (record b { pending = b.pending ++ entry ∷ [] })))
      ]

  step-bounded :
      (s : Step T) (b : BufferedBatch T)
      → length b.pending ≤ b.buffer_size
      → (length (step s b).pending ≤ (step s b).buffer_size)
        × ((step s b).buffer_size ≡ b.buffer_size)
  unfolding step add flush take_pending
  step-bounded (add_step entry) b h = ground (arith, h, length-append b.pending (entry ∷ []))
  step-bounded (flush_step fine) b h = ground (arith, h)

  run-bounded :
      (steps : List (Step T)) (b : BufferedBatch T)
      → length b.pending ≤ b.buffer_size
      → length (run steps b).pending ≤ b.buffer_size
  unfolding run
  run-bounded [] b h = h
  run-bounded (s ∷ steps) b h =
      let (h', same) = step-bounded s b h in omega (arith, run-bounded steps (step s b) h', same)

  -- The batches that were flushed, with what is pending behind them, are exactly the entries that
  -- `add` accepted, in their order, whatever flushes fail; and no more are pending than the size
  -- of the buffer.
  pub run-accepted :
      (steps : List (Step T)) (flush_interval buffer_size : ℕ)
      → (all_given (run steps (new_buffered_batch flush_interval buffer_size)).given
            ++ (run steps (new_buffered_batch flush_interval buffer_size)).pending
          ≡ accepted steps (new_buffered_batch flush_interval buffer_size))
        × (length (run steps (new_buffered_batch flush_interval buffer_size)).pending
            ≤ (new_buffered_batch {T = T} flush_interval buffer_size).buffer_size)
  unfolding new_buffered_batch
  run-accepted steps flush_interval buffer_size =
      let b = new_buffered_batch {T = T} flush_interval buffer_size in
      (run-held steps b, run-bounded steps b (ground arith))
