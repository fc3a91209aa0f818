-- ===== src/Semaphore/Bounded.antt =====
-- internal/monitor/processor.go: the bound on the queries that run beside each other, and what they
-- leave behind.
use redborder_monitor.Query.Gather.{among}
use redborder_monitor.Base.{
  true, false, Option, none, ◌==◌, ==_iff, length, length-append, ℕ, zero, suc, ◌+◌, ◌≤◌, ◌≡◌, refl,
  sym, ap, ◌∙◌, Bool, some, List, [], ◌∷◌, ◌++◌, get_elem?, map, arith, if◌then◌else◌, Bool-cases,
  inl, inr, Option-cases,
}
use redborder_monitor.Base.Float.{Float}
use redborder_monitor.Model.{Monitor}
use redborder_monitor.Query.{World, Gathering, is_queried, no_results, run_queries}
use redborder_monitor.Semaphore.{
  Phase, waiting, running, ended, given_up, is_running, is_ended, set_phase, Crew, start_crew,
  first_phase, end_of, placed, Step, acquire, abandon, release, expire, Runs, begin, more,
}

-- how many phases pass a test
unfoldable pub count : (Phase → Bool) → List Phase → ℕ
count f [] = 0
count f (p ∷ ps) = (if f p then 1 else 0) + count f ps

-- A change of one phase changes the count by the change of its test.
pub count-set_phase :
    (f : Phase → Bool) (i : ℕ) (p q : Phase) (ps : List Phase)
    → get_elem? ps i ≡ some p
    → count f (set_phase i q ps) + (if f p then 1 else 0) ≡ count f ps + (if f q then 1 else 0)
unfolding count set_phase
count-set_phase f i p q [] h = cc h
count-set_phase f zero p q (r ∷ ps) h = let e : f r ≡ f p = cc h in rw e (omega arith)
count-set_phase f (suc i) p q (r ∷ ps) h = omega (arith, count-set_phase f i p q ps h)

-- The phase at an index passes a test.
abbrev pub passes : (Phase → Bool) → Option Phase → Bool
passes f none = false
passes f (some p) = f p

get_elem?-set_phase :
    (i j : ℕ) (p q : Phase) (ps : List Phase)
    → get_elem? ps i ≡ some p
    → get_elem? (set_phase i q ps) j ≡ (if i == j then some q else get_elem? ps j)
unfolding set_phase
get_elem?-set_phase i j p q [] h = cc h
get_elem?-set_phase zero zero p q (r ∷ ps) h = refl
get_elem?-set_phase zero (suc j) p q (r ∷ ps) h = ground arith
get_elem?-set_phase (suc i) zero p q (r ∷ ps) h = ground arith
get_elem?-set_phase (suc i) (suc j) p q (r ∷ ps) h =
    ground (arith, get_elem?-set_phase i j p q ps h)

-- a change of one phase that does not change its test
same_test :
    (f : Phase → Bool) (i j : ℕ) (p q : Phase) (ps : List Phase)
    → get_elem? ps i ≡ some p
    → f p ≡ f q
    → passes f (get_elem? (set_phase i q ps) j) ≡ passes f (get_elem? ps j)
same_test f i j p q ps h e = elim (Bool-cases (i == j)) [
  | inl k ↦
      let l : get_elem? ps j ≡ some p = ap (get_elem? ps) (sym ((==_iff i j).0 k)) ∙ h in
      ap (passes f) (get_elem?-set_phase i j p q ps h) ∙ rw (k, l) (sym e)
  | inr k ↦ ap (passes f) (get_elem?-set_phase i j p q ps h) ∙ rw k refl
]

among-append :
    (j i : ℕ) (xs : List ℕ) → among j (xs ++ i ∷ []) ≡ (if i == j then true else among j xs)
among-append j i [] = ground arith
among-append j i (x ∷ xs) = ground (arith, among-append j i xs)

log_step :
    (i j : ℕ) (ps : List Phase) {b : Bool}
    → get_elem? ps i ≡ some running
    → b ≡ passes is_ended (get_elem? ps j)
    → (if i == j then true else b) ≡ passes is_ended (get_elem? (set_phase i ended ps) j)
log_step i j ps h e = elim (Bool-cases (i == j)) [
  | inl k ↦
      rw k (sym (ap (passes is_ended) (get_elem?-set_phase i j running ended ps h) ∙ rw k refl))
  | inr k ↦
      rw k (e ∙ sym (ap (passes is_ended) (get_elem?-set_phase i j running ended ps h) ∙ rw k refl))
]

module _ {F : Type 0} ⦃fl : Float F⦄ where
  none_ended :
      (ms : List (Monitor F)) (i : ℕ)
      → (passes is_ended (get_elem? (map first_phase ms) i) ≡ false)
        × (count is_ended (map first_phase ms) ≡ 0)
  unfolding count
  none_ended [] i = (refl, refl)
  none_ended (m ∷ ms) zero =
      let k = none_ended ms 0 in
      elim (Bool-cases (is_queried m)) [
        | inl h ↦ rw h (refl, omega (arith, k.1))
        | inr h ↦ rw h (refl, omega (arith, k.1))
      ]
  none_ended (m ∷ ms) (suc i) =
      let k = none_ended ms i in
      elim (Bool-cases (is_queried m)) [
        | inl h ↦ (k.0, rw h (omega (arith, k.1)))
        | inr h ↦ (k.0, rw h (omega (arith, k.1)))
      ]

  none_runs : (ms : List (Monitor F)) → count is_running (map first_phase ms) ≡ 0
  unfolding count
  none_runs [] = refl
  none_runs (m ∷ ms) = elim (Bool-cases (is_queried m)) [
    | inl h ↦ rw h (omega (arith, none_runs ms))
    | inr h ↦ rw h (omega (arith, none_runs ms))
  ]

module _ {F : Type 0} ⦃fl : Float F⦄ (w : World F) (ms : List (Monitor F)) where
  run_queries-append :
      (xs : List ℕ) (i : ℕ) (g : Gathering F)
      → run_queries w ms (xs ++ i ∷ []) g ≡ end_of w i (get_elem? ms i) (run_queries w ms xs g)
  unfolding run_queries
  run_queries-append [] i g = elim (Option-cases (get_elem? ms i)) [
    | inl e ↦ rw (e, run_queries) refl
    | inr (m, e) ↦ rw (e, run_queries) refl
  ]
  run_queries-append (x ∷ xs) i g = run_queries-append xs i _

module _ {F : Type 0} ⦃fl : Float F⦄ (w : World F) (ms : List (Monitor F)) (limit : ℕ) where
  -- The places taken are those of the running queries, no more than the limit; the record holds the
  -- ended queries, as many as there are; and what is gathered is what these leave behind one after
  -- the other.
  pub record Bounded (c : Crew F) : Type 0 where
    pub slots-count : c.slots ≡ count is_running c.phases
    pub slots-bound : c.slots ≤ limit
    pub ended-count : length c.log ≡ count is_ended c.phases
    pub ended-among : (i : ℕ) → among i c.log ≡ passes is_ended (get_elem? c.phases i)
    pub gathered : c.gathering ≡ run_queries (placed w) ms c.log no_results

  start_crew-Bounded : Bounded (start_crew ms)
  unfolding start_crew run_queries
  start_crew-Bounded = record {
    slots-count = sym (none_runs ms);
    slots-bound = omega arith;
    ended-count = sym (none_ended ms 0).1;
    ended-among = λ i. sym (none_ended ms i).0;
    gathered = refl;
  }

  Step-Bounded : {c d : Crew F} → Bounded c → Step w ms limit c d → Bounded d
  Step-Bounded b (acquire c i h l) =
      let k = count-set_phase is_running i waiting running c.phases h in
      let ended_too = count-set_phase is_ended i waiting running c.phases h in
      record {
        slots-count = omega (arith, b.slots-count);
        slots-bound = omega arith;
        ended-count = omega (arith, b.ended-count);
        ended-among =
            λ j. b.ended-among j ∙ sym (same_test is_ended i j waiting running c.phases h refl);
        gathered = b.gathered;
      }
  Step-Bounded b (abandon c i h l) =
      let k = count-set_phase is_running i waiting given_up c.phases h in
      let ended_too = count-set_phase is_ended i waiting given_up c.phases h in
      record {
        slots-count = omega (arith, b.slots-count);
        slots-bound = b.slots-bound;
        ended-count = omega (arith, b.ended-count);
        ended-among =
            λ j. b.ended-among j ∙ sym (same_test is_ended i j waiting given_up c.phases h refl);
        gathered = b.gathered;
      }
  Step-Bounded b (release c i h) =
      let k = count-set_phase is_running i running ended c.phases h in
      let ended_too = count-set_phase is_ended i running ended c.phases h in
      record {
        slots-count = omega (arith, b.slots-count);
        slots-bound = omega (arith, b.slots-bound);
        ended-count = omega (arith, b.ended-count, length-append c.log (i ∷ []));
        ended-among = λ j. among-append j i c.log ∙ log_step i j c.phases h (b.ended-among j);
        gathered =
            ap (end_of (placed w) i (get_elem? ms i)) b.gathered
            ∙ sym (run_queries-append (placed w) ms c.log i no_results);
      }
  Step-Bounded b (expire c h) = record {
    slots-count = b.slots-count;
    slots-bound = b.slots-bound;
    ended-count = b.ended-count;
    ended-among = b.ended-among;
    gathered = b.gathered;
  }

  -- In whatever order the goroutines of a cycle take their steps, no more queries run at a time than
  -- the channel has places, its places are exactly those of the running queries, each query that has
  -- ended is recorded once and no other is, and the results and errors gathered are those of the
  -- ended queries run one after the other in the order of their ends.
  pub Runs-Bounded : {n : ℕ} {c : Crew F} → Runs w ms limit n c → Bounded c
  Runs-Bounded begin = start_crew-Bounded
  Runs-Bounded (more r s) = Step-Bounded (Runs-Bounded r) s
