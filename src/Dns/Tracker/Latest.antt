-- ===== src/Dns/Tracker/Latest.antt =====
-- No query time is lost by `lastQueryTracker` of dns/query_tracker.go.
use dns_go.Base.{
  ℕ, true, List, [], ◌∷◌, Option, none, some, ltb, if◌then◌else◌, nat_eq, ◌==◌, is_nil, ◌≡◌, ◌≢◌,
  refl, ◌∙◌, arith,
}
use dns_go.Base.Map
use dns_go.Base.Map.{Map}
use dns_go.Base.Text.{Text, text_eq, text_beq_iff}
use dns_go.Dns.Tracker.{
  Tracker, raise, record_query, requeue, new_tracker, take_pending, flushed, failed, Step, query,
  take, write_done, write_failed, step, after,
}

-- The later of two times that may be missing.
abbrev pub later : Option ℕ → Option ℕ → Option ℕ
later none b = b
later (some a) none = some a
later (some a) (some b) = if ltb a b then some b else some a

later_assoc : (a b c : Option ℕ) → later (later a b) c ≡ later a (later b c)
later_assoc none b c = refl
later_assoc (some a) none c = refl
later_assoc (some a) (some b) none = ground arith
later_assoc (some a) (some b) (some c) = ground arith

later_comm : (a b : Option ℕ) → later a b ≡ later b a
later_comm none none = refl
later_comm none (some b) = refl
later_comm (some a) none = refl
later_comm (some a) (some b) = ground arith

later-none : (a : Option ℕ) → later a none ≡ a
later-none none = refl
later-none (some a) = refl

-- The latest time of a domain among pairs, and among batches.
abbrev pub latest : Text → Map Text ℕ → Option ℕ
latest domain [] = none
latest domain ((d, t) ∷ m) =
    if d == domain then later (some t) (latest domain m) else latest domain m

abbrev pub latest_written : Text → List (Map Text ℕ) → Option ℕ
latest_written domain [] = none
latest_written domain (m ∷ ms) = later (Map.get domain m) (latest_written domain ms)

-- The latest time at which a domain was queried in a history.
abbrev pub last_query : Text → List Step → Option ℕ
last_query domain [] = none
last_query domain (query d t ∷ steps) =
    if d == domain then later (some t) (last_query domain steps) else last_query domain steps
last_query domain (take ∷ steps) = last_query domain steps
last_query domain (write_done ∷ steps) = last_query domain steps
last_query domain (write_failed ∷ steps) = last_query domain steps

latest-get :
    (domain : Text) (m : Map Text ℕ) → Map.IsDistinct m → latest domain m ≡ Map.get domain m
unfolding Map.get
latest-get domain [] h = refl
latest-get domain ((d, t) ∷ m) (fresh, h) =
    ground (arith, latest-get domain m h, text_beq_iff d domain, fresh)

raise-get :
    (d domain : Text) (t : ℕ) (m : Map Text ℕ)
    → Map.get domain (raise d t m)
      ≡ (if d == domain then later (some t) (Map.get domain m) else Map.get domain m)
unfolding raise
raise-get d domain t m = ground (arith, Map.get-put d domain t m, text_beq_iff d domain)

raise-IsDistinct :
    (d : Text) (t : ℕ) (m : Map Text ℕ) → Map.IsDistinct m → Map.IsDistinct (raise d t m)
unfolding raise
raise-IsDistinct d t m h = ground (arith, Map.put-IsDistinct d t m h)

requeue-get :
    (batch m : Map Text ℕ) (domain : Text)
    → Map.get domain (requeue batch m) ≡ later (latest domain batch) (Map.get domain m)
unfolding requeue
requeue-get [] m domain = refl
requeue-get ((d, t) ∷ batch) m domain =
    requeue-get batch (raise d t m) domain
    ∙ ground (
      arith,
      raise-get d domain t m,
      later_assoc (some t) (latest domain batch) (Map.get domain m),
      later_assoc (latest domain batch) (some t) (Map.get domain m),
      later_comm (some t) (latest domain batch),
    )

requeue-IsDistinct : (batch m : Map Text ℕ) → Map.IsDistinct m → Map.IsDistinct (requeue batch m)
unfolding requeue
requeue-IsDistinct [] m h = h
requeue-IsDistinct ((d, t) ∷ batch) m h =
    requeue-IsDistinct batch (raise d t m) (raise-IsDistinct d t m h)

-- Both maps of a tracker have one time for a domain.
abbrev IsValid : Tracker → Type 0
IsValid t = Map.IsDistinct t.pending × Map.IsDistinct t.batch

-- What a tracker and its writer know of a domain.
abbrev pub known : Text → Tracker → Option ℕ
known domain t =
    later (Map.get domain t.pending)
      (later (Map.get domain t.batch) (latest_written domain t.written))

step-IsValid : (s : Step) (t : Tracker) → IsValid t → IsValid (step s t)
unfolding step record_query take_pending flushed failed
step-IsValid (query d u) t (p, b) = ground (arith, p, b, raise-IsDistinct d u t.pending p)
step-IsValid take t (p, b) = ground (arith, p, b)
step-IsValid write_done t (p, b) = ground (arith, p, b)
step-IsValid write_failed t (p, b) = (requeue-IsDistinct t.batch t.pending p, tt)

get-nil : (domain : Text) (m : Map Text ℕ) → is_nil m ≡ true → Map.get domain m ≡ none
unfolding Map.get
get-nil domain [] h = refl
get-nil domain (x ∷ m) h = absurd (ground arith)

step-known :
    (s : Step) (t : Tracker) (domain : Text)
    → domain ≢ []
    → IsValid t
    → known domain (step s t) ≡ later (last_query domain (s ∷ [])) (known domain t)
unfolding step record_query take_pending flushed failed Map.get
step-known (query d u) t domain ne (p, b) = ground (
  arith,
  ne,
  raise-get d domain u t.pending,
  text_beq_iff d [],
  text_beq_iff d domain,
  later_assoc (some u) (Map.get domain t.pending)
      (later (Map.get domain t.batch) (latest_written domain t.written)),
)
step-known take t domain ne (p, b) =
    ground (arith, get-nil domain t.batch, later-none (Map.get domain t.pending))
step-known write_done t domain ne (p, b) = ground (arith, get-nil domain t.batch)
step-known write_failed t domain ne (p, b) = ground (
  arith,
  requeue-get t.batch t.pending domain,
  latest-get domain t.batch b,
  later_comm (Map.get domain t.batch) (Map.get domain t.pending),
  later_assoc (Map.get domain t.pending) (Map.get domain t.batch) (latest_written domain t.written),
)

after-IsValid : (steps : List Step) → IsValid (after steps)
unfolding after new_tracker
after-IsValid [] = (tt, tt)
after-IsValid (s ∷ steps) = step-IsValid s (after steps) (after-IsValid steps)

last_query-cons :
    (domain : Text) (s : Step) (steps : List Step)
    → last_query domain (s ∷ steps) ≡ later (last_query domain (s ∷ [])) (last_query domain steps)
last_query-cons domain (query d t) steps = ground arith
last_query-cons domain take steps = refl
last_query-cons domain write_done steps = refl
last_query-cons domain write_failed steps = refl

-- Whatever the writer answers and whatever is queried in between, the latest time of a domain
-- with a name stands in the pending map, in the batch in hand or in a batch that was written.
pub after-known :
    (steps : List Step) (domain : Text)
    → domain ≢ []
    → known domain (after steps) ≡ last_query domain steps
unfolding after new_tracker Map.get
after-known [] domain ne = refl
after-known (s ∷ steps) domain ne =
    step-known s (after steps) domain ne (after-IsValid steps)
    ∙ ground (arith, last_query-cons domain s steps, after-known steps domain ne)
