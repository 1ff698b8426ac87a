-- ===== src/Dns/Batch.antt =====
-- `bufferedBatch` of dns/buffered_batch.go, which the writers of the query log and of the ad
-- blocking statistics use: entries of any type, flushed in batches by one goroutine.
pub mod Order
use dns_go.Base.{ℕ, Bool, true, false, not, List, [], ◌∷◌, ◌++◌, if◌then◌else◌, length, is_nil, leb}
use dns_go.Base.Word.{is_positive}

-- Two seconds, and the number of entries, where the caller gives none.
abbrev default_batch_flush_interval : ℕ
default_batch_flush_interval = 2000000000

abbrev default_batch_buffer_size : ℕ
default_batch_buffer_size = 1000

-- `given` lists the batches that `flushBatch` was called with, newest first, and `lost` the
-- lengths that `onError` was called with.
pub record BufferedBatch (T : Type 0) : Type 0 where
  pub flush_interval : ℕ
  pub buffer_size : ℕ
  pub pending : List T
  pub given : List (List T)
  pub lost : List ℕ

module _ {T : Type 0} where
  unfoldable pub new_buffered_batch : ℕ → ℕ → BufferedBatch T
  new_buffered_batch flush_interval buffer_size = record {
    flush_interval =
        if is_positive flush_interval then flush_interval else default_batch_flush_interval;
    buffer_size = if is_positive buffer_size then buffer_size else default_batch_buffer_size;
    pending = [];
    given = [];
    lost = [];
  }

  -- `add` of a batch that is there: whether there was room. The size is positive by now.
  unfoldable pub add : T → BufferedBatch T → BufferedBatch T × Bool
  add entry b =
      if leb b.buffer_size (length b.pending)
      then (b, false)
      else (record b { pending = b.pending ++ entry ∷ [] }, true)

  unfoldable pub take_pending : BufferedBatch T → BufferedBatch T × List T
  take_pending b = (record b { pending = [] }, b.pending)

  -- `flush`, where `fine` tells whether `flushBatch` returns without an error.
  unfoldable pub flush : Bool → BufferedBatch T → BufferedBatch T
  flush fine b =
      let (b', pending) = take_pending b in
      if is_nil pending
      then b'
      else if fine
      then record b' { given = pending ∷ b'.given }
      else record b' { given = pending ∷ b'.given; lost = length pending ∷ b'.lost }
