-- ===== src/Dns/Chain/Walk.antt =====
-- What `resolveCNAMEChain` of dns/handler.go returns: a walk along CNAME records that is short
-- and meets no name twice, and the records of the name where it ends.
use dns_go.Base.{
  ℕ, zero, suc, ◌≤◌, Bool, true, false, List, [], ◌∷◌, ◌++◌, Result, ok, err, nat_eq, contains,
  length, All, ◌≡◌, refl, ◌∙◌, sym, ap, arith, Bool-cases, inl, inr, append_assoc, append-nil,
}
use dns_go.Base.Text.{Text, text_eq}
use dns_go.Storage.Types.{Record}
use dns_go.Dns.Chain.{
  Sources, cname_records, resolve_target_records, chain_rounds, resolve_cname_chain, with_dot,
  max_cname_chain_depth,
}

-- The names whose CNAME records were followed from a name on.
abbrev pub names : Text → List Record → List Text
names start [] = []
names start (c ∷ cs) = start ∷ names (with_dot c.content) cs

-- No name twice, and none of those that were visited before.
abbrev pub IsFresh : List Text → List Text → Type 0
IsFresh visited [] = Unit
IsFresh visited (n ∷ ns) = (contains n visited ≡ false) × IsFresh (n ∷ visited) ns

-- The names that were met before the end of a walk, the last one first.
abbrev pub seen : List Text → Text → List Record → List Text
seen visited start [] = visited
seen visited start (c ∷ cs) = seen (start ∷ visited) (with_dot c.content) cs

module _ (s : Sources) (zone : ℕ) (qtype : Text) where
  -- Each CNAME record is the first of its name, and its content is the next name.
  pub data Walk : Text → List Record → Text → Type 0 where
    here : (n : Text) → Walk n [] n
    link :
        (n : Text) (c : Record) (more cs : List Record) (end : Text)
        → cname_records s zone n ≡ ok (c ∷ more)
        → Walk (with_dot c.content) cs end
        → Walk n (c ∷ cs) end

  -- The name that a CNAME record leads to has no record of the type.
  abbrev pub IsBarren : Record → Type 0
  IsBarren c =
      (via_gslb : Bool) × (resolve_target_records s zone (with_dot c.content) qtype
        ≡ ok ([], via_gslb))

  -- A walk whose last record leads to a name for which the lookup answers `r`, while no name
  -- before it has a record of the type.
  abbrev pub LastGives : List Record → Result (List Record × Bool) → Type 0
  LastGives cnames r =
      (front : List Record) × (last : Record) × (cnames ≡ front ++ last ∷ [])
      × All IsBarren front
      × (resolve_target_records s zone (with_dot last.content) qtype ≡ r)

  -- Why a walk ends: its last name is the first that has records; or none has any and the last has
  -- no CNAME record, was met before, or stands behind the last round; or a read of the storage failed
  -- there.
  pub data Ending (rounds : ℕ) (visited : List Text) (start : Text) (cnames : List Record)
      (end : Text) : List Record → Result Bool → Type 0 where
    resolved :
        (r : Record) (rs : List Record) (via_gslb : Bool)
        → LastGives cnames (ok (r ∷ rs, via_gslb))
        → Ending rounds visited start cnames end (r ∷ rs) (ok via_gslb)
    no_cname :
        All IsBarren cnames
        → cname_records s zone end ≡ ok []
        → Ending rounds visited start cnames end [] (ok false)
    looped :
        All IsBarren cnames
        → contains end (seen visited start cnames) ≡ true
        → Ending rounds visited start cnames end [] (ok false)
    exhausted :
        All IsBarren cnames
        → length cnames ≡ rounds
        → Ending rounds visited start cnames end [] (ok false)
    no_read :
        All IsBarren cnames
        → cname_records s zone end ≡ err
        → Ending rounds visited start cnames end [] err
    no_target : LastGives cnames err → Ending rounds visited start cnames end [] err

  -- The records of an outcome are those from before, the CNAME records of a walk, and the records
  -- of the name where the walk ends.
  pub record IsChain (rounds : ℕ) (visited : List Text) (start : Text) (before : List Record)
      (out : List Record × Result Bool) : Type 0 where
    pub cnames : List Record
    pub targets : List Record
    pub end : Text
    pub parts : out.0 ≡ before ++ (cnames ++ targets)
    pub walk : Walk start cnames end
    pub short : length cnames ≤ rounds
    pub fresh : IsFresh visited (names start cnames)
    pub ending : Ending rounds visited start cnames end targets out.1

  stopped :
      (rounds : ℕ) (visited : List Text) (start : Text) (before : List Record) (r : Result Bool)
      → Ending rounds visited start [] start [] r
      → IsChain rounds visited start before (before, r)
  stopped rounds visited start before r ending = record {
    cnames = [];
    targets = [];
    end = start;
    parts = sym (append-nil before);
    walk = here start;
    short = omega arith;
    fresh = tt;
    ending = ending;
  }

  -- One CNAME record, and an end at its target.
  ended :
      (rounds : ℕ) (visited : List Text) (start : Text) (before : List Record) (c : Record)
      (more rs : List Record) (r : Result Bool)
      → contains start visited ≡ false
      → cname_records s zone start ≡ ok (c ∷ more)
      → Ending (suc rounds) visited start (c ∷ []) (with_dot c.content) rs r
      → IsChain (suc rounds) visited start before ((before ++ c ∷ []) ++ rs, r)
  ended rounds visited start before c more rs r new e ending = record {
    cnames = c ∷ [];
    targets = rs;
    end = with_dot c.content;
    parts = append_assoc before (c ∷ []) rs;
    walk = link start c more [] (with_dot c.content) e (here (with_dot c.content));
    short = omega arith;
    fresh = (new, tt);
    ending = ending;
  }

  LastGives-cons :
      (c : Record) (cs : List Record) (r : Result (List Record × Bool))
      → IsBarren c
      → LastGives cs r
      → LastGives (c ∷ cs) r
  LastGives-cons c cs r barren (front, last, same, all, gives) =
      (c ∷ front, last, ap (λ xs. c ∷ xs) same, (barren, all), gives)

  Ending-cons :
      (rounds : ℕ) (visited : List Text) (start : Text) (c : Record) (cs : List Record) (end : Text)
      (rs : List Record) (r : Result Bool)
      → IsBarren c
      → Ending rounds (start ∷ visited) (with_dot c.content) cs end rs r
      → Ending (suc rounds) visited start (c ∷ cs) end rs r
  Ending-cons rounds visited start c cs end _ _ b (resolved r rs via h) =
      resolved r rs via (LastGives-cons c cs (ok (r ∷ rs, via)) b h)
  Ending-cons rounds visited start c cs end _ _ b (no_cname all h) = no_cname (b, all) h
  Ending-cons rounds visited start c cs end _ _ b (looped all h) = looped (b, all) h
  Ending-cons rounds visited start c cs end _ _ b (exhausted all h) =
      exhausted (b, all) (omega (arith, h))
  Ending-cons rounds visited start c cs end _ _ b (no_read all h) = no_read (b, all) h
  Ending-cons rounds visited start c cs end _ _ b (no_target h) =
      no_target (LastGives-cons c cs err b h)

  extended :
      (rounds : ℕ) (visited : List Text) (start : Text) (before : List Record) (c : Record)
      (more : List Record) (out : List Record × Result Bool)
      → contains start visited ≡ false
      → cname_records s zone start ≡ ok (c ∷ more)
      → IsBarren c
      → IsChain rounds (start ∷ visited) (with_dot c.content) (before ++ c ∷ []) out
      → IsChain (suc rounds) visited start before out
  extended rounds visited start before c more out new e barren rest = record {
    cnames = c ∷ rest.cnames;
    targets = rest.targets;
    end = rest.end;
    parts = rest.parts ∙ append_assoc before (c ∷ []) (rest.cnames ++ rest.targets);
    walk = link start c more rest.cnames rest.end e rest.walk;
    short = omega (arith, rest.short);
    fresh = (new, rest.fresh);
    ending =
        Ending-cons rounds visited start c rest.cnames rest.end rest.targets out.1 barren
          rest.ending;
  }

  chain_rounds-IsChain :
      (rounds : ℕ) (visited : List Text) (current : Text) (before : List Record)
      → IsChain rounds visited current before
          (chain_rounds s rounds zone qtype visited current before)
  unfolding chain_rounds
  chain_rounds-IsChain zero visited current before =
      stopped zero visited current before (ok false) (exhausted tt refl)
  chain_rounds-IsChain (suc rounds) visited current before =
      elim (Bool-cases (contains current visited)) [
        | inl seen_before ↦
            rw (chain_rounds, seen_before)
              (stopped (suc rounds) visited current before (ok false) (looped tt seen_before))
        | inr new ↦
            go (λ t rs. chain_rounds-IsChain rounds (current ∷ visited) t rs) new
              (cname_records s zone current) refl
      ]
    where
      onward :
          ((t : Text) (rs : List Record)
            → IsChain rounds
                (current ∷ visited)
                t
                rs
                (chain_rounds s rounds zone qtype (current ∷ visited) t rs))
          → contains current visited ≡ false
          → (c : Record) (more : List Record) → cname_records s zone current ≡ ok (c ∷ more)
          → (o : Result (List Record × Bool))
          → resolve_target_records s zone (with_dot c.content) qtype ≡ o
          → IsChain
              (suc rounds)
              visited
              current
              before
              (chain_rounds s (suc rounds) zone qtype visited current before)
      onward rest new c more e err t =
          let e0 =
            ended rounds visited current before c more [] err new e
              (no_target ([], c, refl, tt, t)) in
          rw (chain_rounds, new, e, t) (rw append-nil at e0)
      onward rest new c more e (ok ([], via)) t =
          rw (chain_rounds, new, e, t)
            (extended rounds visited current before c more _ new e (via, t)
              (rest (with_dot c.content) (before ++ c ∷ [])))
      onward rest new c more e (ok (r ∷ rs, via)) t =
          rw (chain_rounds, new, e, t)
            (ended rounds visited current before c more (r ∷ rs) (ok via) new e
              (resolved r rs via ([], c, refl, tt, t)))

      go :
          ((t : Text) (rs : List Record)
            → IsChain rounds
                (current ∷ visited)
                t
                rs
                (chain_rounds s rounds zone qtype (current ∷ visited) t rs))
          → contains current visited ≡ false
          → (o : Result (List Record)) → cname_records s zone current ≡ o
          → IsChain
              (suc rounds)
              visited
              current
              before
              (chain_rounds s (suc rounds) zone qtype visited current before)
      go rest new err e =
          rw (chain_rounds, new, e) (stopped (suc rounds) visited current before err (no_read tt e))
      go rest new (ok []) e =
          rw (chain_rounds, new, e)
            (stopped (suc rounds) visited current before (ok false) (no_cname tt e))
      go rest new (ok (c ∷ more)) e =
          onward rest new c more e (resolve_target_records s zone (with_dot c.content) qtype) refl

  -- The records of an answer are a walk of at most eight CNAME records from the name, each the
  -- first of its name and none met twice, and the records of the type at the name where the walk
  -- ends: the first name behind a CNAME record that has any. Where there are none, no name of the walk
  -- has any, and the last has no CNAME record, was met before or stands behind the eighth record; and
  -- an error comes from a read at that name.
  pub resolve_cname_chain-IsChain :
      (domain : Text)
      → IsChain max_cname_chain_depth [] domain [] (resolve_cname_chain s zone domain qtype)
  unfolding resolve_cname_chain
  resolve_cname_chain-IsChain domain = chain_rounds-IsChain max_cname_chain_depth [] domain []
