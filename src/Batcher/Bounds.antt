-- ===== src/Batcher/Bounds.antt =====
-- The sizes of the batches and of the channel, and the counters.
use redborder_monitor.Base.{
  ℕ, ◌+◌, ◌≤◌, ◌<◌, ◌≡◌, refl, ap, ◌∙◌, false, List, [], ◌∷◌, ◌++◌, length, length-append, All,
  All-append, arith, ltb, leb, if_either, Bool-cases, inl, inr,
}
use redborder_monitor.Base.Text.{is_empty}
use redborder_monitor.Batcher.{
  PostResult, is_requested, is_accepted, Batcher, Event, produce, receive, tick, capacity,
  new_batcher, enqueue, send_batch, flush, append_metric, receive_metric, step, run, drain, stop,
}
use redborder_monitor.Batcher.Order.{concat, concat-append, append_metric-queue}

length-snoc : {A : Type 0} (xs : List A) (x : A) → length (xs ++ x ∷ []) ≡ length xs + 1
length-snoc xs x = length-append xs (x ∷ [])

length_of_nonempty : {A : Type 0} (xs : List A) → is_empty xs ≡ false → 1 ≤ length xs
length_of_nonempty [] h = cc h
length_of_nonempty (x ∷ xs) h = omega arith

module _ {A : Type 0} where
  abbrev pub IsSized : ℕ → List A → Type 0
  IsSized max_batch batch = (1 ≤ length batch) × (length batch ≤ max_batch)

  -- Each batch and each post has a metric and no more than the limit; the channel holds no more than
  -- its size; each metric of a batch or dropped is counted once, as sent or as failed.
  pub record IsValid (max_batch : ℕ) (b : Batcher A) : Type 0 where
    pub sized : All (IsSized max_batch) b.batches
    pub posts_sized : All (IsSized max_batch) b.posted
    pub bounded : length b.queue ≤ capacity max_batch
    pub counted : b.sent_http + b.failed_http ≡ length (concat b.batches) + length b.dropped

  -- A batch that is not yet posted is smaller than the limit.
  pub record IsRunning (max_batch : ℕ) (b : Batcher A) : Type 0 where
    pub valid : IsValid max_batch b
    pub small : length b.batch < max_batch

  length-concat-snoc :
      (xss : List (List A)) (ys : List A)
      → length (concat (xss ++ ys ∷ [])) ≡ length (concat xss) + length ys
  length-concat-snoc xss ys = ap length (concat-append xss ys) ∙ length-append (concat xss) ys

  flush-IsRunning :
      (max_batch : ℕ) (answers : ℕ → PostResult) (b : Batcher A)
      → 1 ≤ max_batch
      → length b.batch ≤ max_batch
      → IsValid max_batch b
      → IsRunning max_batch (flush answers b)
  unfolding flush send_batch
  flush-IsRunning max_batch answers b p h v = elim (Bool-cases (is_empty b.batch)) [
    | inl e ↦ rw e (record { valid = v; small = ground arith })
    | inr e ↦
        let n = length_of_nonempty b.batch e in
        let sized = All-append (IsSized max_batch) b.batches (b.batch ∷ []) v.sized ((n, h), tt) in
        let posts_sized =
          if_either (All (IsSized max_batch)) (is_requested (answers (length b.batches)))
            (All-append (IsSized max_batch) b.posted (b.batch ∷ []) v.posts_sized ((n, h), tt))
            v.posts_sized in
        rw e (
          if_either (IsRunning max_batch) (is_accepted (answers (length b.batches)))
            (record {
              valid = record {
                sized = sized;
                posts_sized = posts_sized;
                bounded = v.bounded;
                counted = omega (arith, v.counted, length-concat-snoc b.batches b.batch);
              };
              small = p;
            })
            (record {
              valid = record {
                sized = sized;
                posts_sized = posts_sized;
                bounded = v.bounded;
                counted = omega (arith, v.counted, length-concat-snoc b.batches b.batch);
              };
              small = p;
            }))
  ]

  append_metric-IsRunning :
      (max_batch : ℕ) (answers : ℕ → PostResult) (x : A) (queue : List A) (b : Batcher A)
      → 1 ≤ max_batch
      → b.queue ≡ x ∷ queue
      → IsRunning max_batch b
      → IsRunning max_batch (append_metric max_batch answers x (record b { queue = queue }))
  unfolding append_metric
  append_metric-IsRunning max_batch answers x queue b p e r =
      let grown : Batcher A = record b { queue = queue; batch = b.batch ++ x ∷ [] } in
      let v : IsValid max_batch grown = record {
        sized = r.valid.sized;
        posts_sized = r.valid.posts_sized;
        bounded = omega (arith, r.valid.bounded, ap length e);
        counted = r.valid.counted;
      } in
      elim (Bool-cases (leb max_batch (length grown.batch))) [
        | inl h ↦ rw h (
            flush-IsRunning max_batch answers grown p
              (omega (arith, r.small, length-snoc b.batch x)) v)
        | inr h ↦ rw h (record { valid = v; small = ground arith })
      ]

  receive_metric-IsRunning :
      (max_batch : ℕ) (answers : ℕ → PostResult) (queue : List A) (b : Batcher A)
      → 1 ≤ max_batch
      → b.queue ≡ queue
      → IsRunning max_batch b
      → IsRunning max_batch (receive_metric max_batch answers queue b)
  unfolding receive_metric
  receive_metric-IsRunning max_batch answers [] b p e r = r
  receive_metric-IsRunning max_batch answers (x ∷ queue) b p e r =
      append_metric-IsRunning max_batch answers x queue b p e r

  enqueue-IsRunning :
      (max_batch : ℕ) (x : A) (b : Batcher A)
      → IsRunning max_batch b
      → IsRunning max_batch (enqueue max_batch x b)
  unfolding enqueue
  enqueue-IsRunning max_batch x b r =
      elim (Bool-cases (ltb (length b.queue) (capacity max_batch))) [
        | inl h ↦ rw h (record {
          valid = record {
            sized = r.valid.sized;
            posts_sized = r.valid.posts_sized;
            bounded = ground (arith, length-snoc b.queue x);
            counted = r.valid.counted;
          };
          small = r.small;
        })
        | inr h ↦ rw h (record {
          valid = record {
            sized = r.valid.sized;
            posts_sized = r.valid.posts_sized;
            bounded = r.valid.bounded;
            counted = omega (arith, r.valid.counted, length-snoc b.dropped x);
          };
          small = r.small;
        })
      ]

  step-IsRunning :
      (max_batch : ℕ) (answers : ℕ → PostResult) (e : Event A) (b : Batcher A)
      → 1 ≤ max_batch
      → IsRunning max_batch b
      → IsRunning max_batch (step max_batch answers e b)
  unfolding step
  step-IsRunning max_batch answers (produce x) b p r = enqueue-IsRunning max_batch x b r
  step-IsRunning max_batch answers receive b p r =
      receive_metric-IsRunning max_batch answers b.queue b p refl r
  step-IsRunning max_batch answers tick b p r =
      flush-IsRunning max_batch answers b p (omega (arith, r.small)) r.valid

  run-IsRunning :
      (max_batch : ℕ) (answers : ℕ → PostResult) (es : List (Event A)) (b : Batcher A)
      → 1 ≤ max_batch
      → IsRunning max_batch b
      → IsRunning max_batch (run max_batch answers es b)
  unfolding run
  run-IsRunning max_batch answers [] b p r = r
  run-IsRunning max_batch answers (e ∷ es) b p r =
      run-IsRunning max_batch answers es _ p (step-IsRunning max_batch answers e b p r)

  drain-IsRunning :
      (max_batch : ℕ) (answers : ℕ → PostResult) (queue : List A) (b : Batcher A)
      → 1 ≤ max_batch
      → b.queue ≡ queue
      → IsRunning max_batch b
      → IsRunning max_batch (drain max_batch answers queue b)
  unfolding drain
  drain-IsRunning max_batch answers [] b p e r =
      flush-IsRunning max_batch answers b p (omega (arith, r.small)) r.valid
  drain-IsRunning max_batch answers (x ∷ queue) b p e r =
      drain-IsRunning max_batch answers queue _ p
        (append_metric-queue max_batch answers x (record b { queue = queue }))
        (append_metric-IsRunning max_batch answers x queue b p e r)

  -- A batcher with a limit of at least one is valid at every time: whatever happened before, and
  -- also when it then stops.
  pub run-IsValid :
      (max_batch : ℕ) (answers : ℕ → PostResult) (es : List (Event A))
      → 1 ≤ max_batch
      → IsValid max_batch (run max_batch answers es new_batcher)
        × IsValid max_batch (stop max_batch answers (run max_batch answers es new_batcher))
  unfolding stop
  run-IsValid max_batch answers es p =
      let start : IsRunning max_batch new_batcher = record {
        valid = record { sized = tt; posts_sized = tt; bounded = omega arith; counted = refl };
        small = p;
      } in
      let r = run-IsRunning max_batch answers es new_batcher p start in
      (r.valid, (drain-IsRunning max_batch answers _ _ p refl r).valid)
