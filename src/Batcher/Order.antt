-- ===== src/Batcher/Order.antt =====
-- The way of the metrics through the channel into batches.
use mathlib.Core.List.{append_assoc, append-nil}
use redborder_monitor.Base.{
  ℕ, ◌≡◌, refl, sym, ap, ◌∙◌, true, List, [], ◌∷◌, ◌++◌, length, ltb, leb, if_either, Bool-cases,
  inl, inr,
}
use redborder_monitor.Base.Text.{is_empty}
use redborder_monitor.Batcher.{
  PostResult, is_accepted, Batcher, Event, produce, receive, tick, capacity, new_batcher, enqueue,
  send_batch, flush, append_metric, receive_metric, step, run, drain, stop,
}

abbrev pub concat : {A : Type 0} → List (List A) → List A
concat [] = []
concat (xs ∷ xss) = xs ++ concat xss

is_empty_nil : {A : Type 0} (xs : List A) → is_empty xs ≡ true → xs ≡ []
is_empty_nil [] h = refl
is_empty_nil (x ∷ xs) h = cc h

module _ {A : Type 0} where
  pub concat-append :
      (xss : List (List A)) (ys : List A) → concat (xss ++ ys ∷ []) ≡ concat xss ++ ys
  concat-append [] ys = append-nil ys
  concat-append (xs ∷ xss) ys =
      ap (λ l. xs ++ l) (concat-append xss ys) ∙ sym (append_assoc xs (concat xss) ys)

  -- The metrics that the channel has taken, in order: those in batches given to `sendHTTPBatch`,
  -- those in the batch, and those that wait.
  abbrev pub taken : Batcher A → List A
  taken b = concat b.batches ++ (b.batch ++ b.queue)

  -- The metrics that the events bring.
  abbrev pub produced : List (Event A) → List A
  produced [] = []
  produced (produce x ∷ es) = x ∷ produced es
  produced (receive ∷ es) = produced es
  produced (tick ∷ es) = produced es

  -- `zs` is `xs` and `ys` put together, each in its order.
  pub data Interleaves : List A → List A → List A → Type 0 where
    ends : Interleaves [] [] []
    from_left :
        {x : A} {xs ys zs : List A} → Interleaves xs ys zs → Interleaves (x ∷ xs) ys (x ∷ zs)
    from_right :
        {y : A} {xs ys zs : List A} → Interleaves xs ys zs → Interleaves xs (y ∷ ys) (y ∷ zs)

  -- A step of the goroutine: it moves metrics on and leaves their order and the dropped ones alone.
  record Moves (b c : Batcher A) : Type 0 where
    same_taken : taken c ≡ taken b
    same_dropped : c.dropped ≡ b.dropped

  Moves-trans : (a b c : Batcher A) → Moves a b → Moves b c → Moves a c
  Moves-trans a b c f g = record {
    same_taken = g.same_taken ∙ f.same_taken;
    same_dropped = g.same_dropped ∙ f.same_dropped;
  }

  flush-Moves : (answers : ℕ → PostResult) (b : Batcher A) → Moves b (flush answers b)
  unfolding flush send_batch
  flush-Moves answers b =
      let e : concat (b.batches ++ b.batch ∷ []) ++ b.queue ≡ taken b =
        ap (λ l. l ++ b.queue) (concat-append b.batches b.batch)
        ∙ append_assoc (concat b.batches) b.batch b.queue in
      if_either (Moves b) (is_empty b.batch) (record { same_taken = refl; same_dropped = refl })
        (if_either (Moves b) (is_accepted (answers (length b.batches)))
          (record { same_taken = e; same_dropped = refl })
          (record { same_taken = e; same_dropped = refl }))

  pub append_metric-queue :
      (max_batch : ℕ) (answers : ℕ → PostResult) (x : A) (b : Batcher A)
      → (append_metric max_batch answers x b).queue ≡ b.queue
  unfolding append_metric flush send_batch
  append_metric-queue max_batch answers x b =
      let same_queue : Batcher A → Type 0 = λ c. c.queue ≡ b.queue in
      if_either same_queue (leb max_batch (length (b.batch ++ x ∷ [])))
        (if_either same_queue (is_empty (b.batch ++ x ∷ [])) refl
          (if_either same_queue (is_accepted (answers (length b.batches))) refl refl))
        refl

  append_metric-Moves :
      (max_batch : ℕ) (answers : ℕ → PostResult) (x : A) (queue : List A) (b : Batcher A)
      → b.queue ≡ x ∷ queue
      → Moves b (append_metric max_batch answers x (record b { queue = queue }))
  unfolding append_metric
  append_metric-Moves max_batch answers x queue b e =
      let grown : Batcher A = record b { queue = queue; batch = b.batch ++ x ∷ [] } in
      let m : Moves b grown = record {
        same_taken =
            ap (λ l. concat b.batches ++ l)
              (append_assoc b.batch (x ∷ []) queue ∙ ap (λ q. b.batch ++ q) (sym e));
        same_dropped = refl;
      } in
      if_either (Moves b) (leb max_batch (length grown.batch))
        (Moves-trans b grown (flush answers grown) m (flush-Moves answers grown)) m

  receive_metric-Moves :
      (max_batch : ℕ) (answers : ℕ → PostResult) (queue : List A) (b : Batcher A)
      → b.queue ≡ queue
      → Moves b (receive_metric max_batch answers queue b)
  unfolding receive_metric
  receive_metric-Moves max_batch answers [] b e = record { same_taken = refl; same_dropped = refl }
  receive_metric-Moves max_batch answers (x ∷ queue) b e =
      append_metric-Moves max_batch answers x queue b e

  drain-Moves :
      (max_batch : ℕ) (answers : ℕ → PostResult) (queue : List A) (b : Batcher A)
      → b.queue ≡ queue
      → Moves b (drain max_batch answers queue b)
  unfolding drain
  drain-Moves max_batch answers [] b e = flush-Moves answers b
  drain-Moves max_batch answers (x ∷ queue) b e =
      Moves-trans b _ _ (append_metric-Moves max_batch answers x queue b e) (
        drain-Moves max_batch answers queue _
          (append_metric-queue max_batch answers x (record b { queue = queue })))

  -- What has become of the metrics that arrived: the channel has taken some behind
  -- those it had, and the others are dropped, both in order.
  pub record Accounts (b : Batcher A) (arrived : List A) (c : Batcher A) : Type 0 where
    pub new : List A
    pub lost : List A
    pub all_taken : taken c ≡ taken b ++ new
    pub all_dropped : c.dropped ≡ b.dropped ++ lost
    pub complete : Interleaves new lost arrived

  Accounts-moved :
      (a b c : Batcher A) (arrived : List A)
      → Moves a b
      → Accounts b arrived c
      → Accounts a arrived c
  Accounts-moved a b c arrived m r = record {
    new = r.new;
    lost = r.lost;
    all_taken = r.all_taken ∙ ap (λ l. l ++ r.new) m.same_taken;
    all_dropped = r.all_dropped ∙ ap (λ l. l ++ r.lost) m.same_dropped;
    complete = r.complete;
  }

  Accounts-taken :
      (a b c : Batcher A) (x : A) (arrived : List A)
      → taken b ≡ taken a ++ x ∷ []
      → b.dropped ≡ a.dropped
      → Accounts b arrived c
      → Accounts a (x ∷ arrived) c
  Accounts-taken a b c x arrived t d r = record {
    new = x ∷ r.new;
    lost = r.lost;
    all_taken = r.all_taken ∙ ap (λ l. l ++ r.new) t ∙ append_assoc (taken a) (x ∷ []) r.new;
    all_dropped = r.all_dropped ∙ ap (λ l. l ++ r.lost) d;
    complete = from_left r.complete;
  }

  Accounts-dropped :
      (a b c : Batcher A) (x : A) (arrived : List A)
      → taken b ≡ taken a
      → b.dropped ≡ a.dropped ++ x ∷ []
      → Accounts b arrived c
      → Accounts a (x ∷ arrived) c
  Accounts-dropped a b c x arrived t d r = record {
    new = r.new;
    lost = x ∷ r.lost;
    all_taken = r.all_taken ∙ ap (λ l. l ++ r.new) t;
    all_dropped = r.all_dropped ∙ ap (λ l. l ++ r.lost) d ∙ append_assoc a.dropped (x ∷ []) r.lost;
    complete = from_right r.complete;
  }

  run-Accounts :
      (max_batch : ℕ) (answers : ℕ → PostResult) (es : List (Event A)) (b : Batcher A)
      → Accounts b (produced es) (run max_batch answers es b)
  unfolding run step enqueue
  run-Accounts max_batch answers [] b = record {
    new = [];
    lost = [];
    all_taken = sym (append-nil _);
    all_dropped = sym (append-nil _);
    complete = ends;
  }
  run-Accounts max_batch answers (produce x ∷ es) b =
      elim (Bool-cases (ltb (length b.queue) (capacity max_batch))) [
        | inl h ↦ rw h (
            Accounts-taken b (record b { queue = b.queue ++ x ∷ [] }) _ x (produced es)
              (ap (λ l. concat b.batches ++ l) (sym (append_assoc b.batch b.queue (x ∷ [])))
                ∙ sym (append_assoc (concat b.batches) (b.batch ++ b.queue) (x ∷ [])))
              refl (run-Accounts max_batch answers es _))
        | inr h ↦
            rw h (
              Accounts-dropped b _ _ x (produced es) refl refl
                (run-Accounts max_batch answers es _))
      ]
  run-Accounts max_batch answers (receive ∷ es) b =
      Accounts-moved b _ _ (produced es) (receive_metric-Moves max_batch answers b.queue b refl)
        (run-Accounts max_batch answers es _)
  run-Accounts max_batch answers (tick ∷ es) b =
      Accounts-moved b _ _ (produced es) (flush-Moves answers b)
        (run-Accounts max_batch answers es _)

  -- Nothing waits any more.
  IsDrained : Batcher A → Type 0
  IsDrained b = (b.batch ≡ []) × (b.queue ≡ [])

  flush-IsDrained :
      (answers : ℕ → PostResult) (b : Batcher A) → b.queue ≡ [] → IsDrained (flush answers b)
  unfolding flush send_batch IsDrained
  flush-IsDrained answers b e = elim (Bool-cases (is_empty b.batch)) [
    | inl h ↦ rw h (is_empty_nil b.batch h, e)
    | inr h ↦
        rw h (if_either IsDrained (is_accepted (answers (length b.batches))) (refl, e) (refl, e))
  ]

  drain-IsDrained :
      (max_batch : ℕ) (answers : ℕ → PostResult) (queue : List A) (b : Batcher A)
      → b.queue ≡ queue
      → IsDrained (drain max_batch answers queue b)
  unfolding drain
  drain-IsDrained max_batch answers [] b e = flush-IsDrained answers b e
  drain-IsDrained max_batch answers (x ∷ queue) b e =
      drain-IsDrained max_batch answers queue _
        (append_metric-queue max_batch answers x (record b { queue = queue }))

  -- Whatever happens before it stops, a new batcher that has stopped has put the metrics it was given
  -- into batches for `sendHTTPBatch`, each once and in their order, but for those it has dropped,
  -- which are there in order too.
  pub stop-Interleaves :
      (max_batch : ℕ) (answers : ℕ → PostResult) (es : List (Event A))
      → Interleaves
          (concat (stop max_batch answers (run max_batch answers es new_batcher)).batches)
          (stop max_batch answers (run max_batch answers es new_batcher)).dropped
          (produced es)
  unfolding stop IsDrained
  stop-Interleaves max_batch answers es =
      let b = run max_batch answers es new_batcher in
      let c = drain max_batch answers b.queue b in
      let r = run-Accounts max_batch answers es new_batcher in
      let m = drain-Moves max_batch answers b.queue b refl in
      let d = drain-IsDrained max_batch answers b.queue b refl in
      let given : concat c.batches ≡ r.new =
        sym (append-nil (concat c.batches))
        ∙ ap (λ l. concat c.batches ++ l) (sym (ap (λ l. l ++ c.queue) d.0 ∙ d.1))
        ∙ m.same_taken
        ∙ r.all_taken in
      let lost : c.dropped ≡ r.lost = m.same_dropped ∙ r.all_dropped in rw (given, lost) r.complete
