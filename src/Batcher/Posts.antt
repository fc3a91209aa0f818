-- ===== src/Batcher/Posts.antt =====
-- Which metrics are posted to the server, and which are not.
use mathlib.Core.Path.{subst}
use redborder_monitor.Base.{
  ℕ, ◌+◌, ◌≡◌, refl, sym, ap, Bool, true, false, List, [], ◌∷◌, ◌++◌, length, arith, ltb, leb,
  if◌then◌else◌, if_either,
}
use redborder_monitor.Base.Text.{is_empty}
use redborder_monitor.Batcher.{
  PostResult, marshal_failed, request_failed, post_failed, status, is_requested, is_accepted,
  Batcher, Event, produce, receive, tick, capacity, new_batcher, enqueue, send_batch, flush,
  append_metric, receive_metric, step, run, drain, stop,
}
use redborder_monitor.Batcher.Order.{concat, produced, Interleaves, stop-Interleaves}

module _ {A : Type 0} where
  -- The batches, from number `n` on, for which a request is made.
  abbrev requested : (ℕ → PostResult) → ℕ → List (List A) → List (List A)
  requested answers n [] = []
  requested answers n (b ∷ bs) =
      let rest = requested answers (n + 1) bs in if is_requested (answers n) then b ∷ rest else rest

  -- The posts of these batches, from number `n` on: a batch is posted, whether the server answers or
  -- not, unless it cannot be written as JSON or no request can be made for it.
  pub data Posts (answers : ℕ → PostResult) : ℕ → List (List A) → List (List A) → Type 0 where
    none_left : {n : ℕ} → Posts answers n [] []
    unwritten :
        {n : ℕ} {b : List A} {bs ps : List (List A)}
        → answers n ≡ marshal_failed
        → Posts answers (n + 1) bs ps
        → Posts answers n (b ∷ bs) ps
    unrequested :
        {n : ℕ} {b : List A} {bs ps : List (List A)}
        → answers n ≡ request_failed
        → Posts answers (n + 1) bs ps
        → Posts answers n (b ∷ bs) ps
    unanswered :
        {n : ℕ} {b : List A} {bs ps : List (List A)}
        → answers n ≡ post_failed
        → Posts answers (n + 1) bs ps
        → Posts answers n (b ∷ bs) (b ∷ ps)
    answered :
        {n code : ℕ} {b : List A} {bs ps : List (List A)}
        → answers n ≡ status code
        → Posts answers (n + 1) bs ps
        → Posts answers n (b ∷ bs) (b ∷ ps)

  add_batch :
      (answers : ℕ → PostResult) (n : ℕ) (r : PostResult) (b : List A) (bs ps : List (List A))
      → answers n ≡ r
      → Posts answers (n + 1) bs ps
      → Posts answers n (b ∷ bs) (if is_requested r then b ∷ ps else ps)
  add_batch answers n marshal_failed b bs ps e k = unwritten e k
  add_batch answers n request_failed b bs ps e k = unrequested e k
  add_batch answers n post_failed b bs ps e k = unanswered e k
  add_batch answers n (status code) b bs ps e k = answered e k

  requested-Posts :
      (answers : ℕ → PostResult) (n : ℕ) (bs : List (List A))
      → Posts answers n bs (requested answers n bs)
  requested-Posts answers n [] = none_left
  requested-Posts answers n (b ∷ bs) =
      add_batch answers n (answers n) b bs _ refl (requested-Posts answers (n + 1) bs)

  -- What a stopped batcher has made of the metrics `given`: all but the dropped ones are in batches,
  -- each once, and both are in their order, and the posts are those of the batches.
  pub record Delivers (answers : ℕ → PostResult) (given : List A) (b : Batcher A) : Type 0 where
    pub complete : Interleaves (concat b.batches) b.dropped given
    pub posts : Posts answers 0 b.batches b.posted

  both_tests :
      (p q : Bool) (c b : List A) (xs ys : List (List A))
      → xs ≡ (if q then ys ++ b ∷ [] else ys)
      → (if p then c ∷ xs else xs)
        ≡ (if q then (if p then c ∷ ys else ys) ++ b ∷ [] else if p then c ∷ ys else ys)
  both_tests true true c b xs ys e = ap (λ l. c ∷ l) e
  both_tests true false c b xs ys e = ap (λ l. c ∷ l) e
  both_tests false true c b xs ys e = e
  both_tests false false c b xs ys e = e

  requested-snoc :
      (answers : ℕ → PostResult) (n m : ℕ) (bs : List (List A)) (b : List A)
      → n + length bs ≡ m
      → requested answers n (bs ++ b ∷ []) ≡ (
          if is_requested (answers m)
          then requested answers n bs ++ b ∷ []
          else requested answers n bs)
  requested-snoc answers n m [] b e = ap at_end (let k : n ≡ m = omega (arith, e) in k)
    where
      at_end : ℕ → List (List A)
      at_end k = if is_requested (answers k) then b ∷ [] else []
  requested-snoc answers n m (c ∷ bs) b e =
      both_tests (is_requested (answers n)) (is_requested (answers m)) c b _ _
        (requested-snoc answers (n + 1) m bs b (omega (arith, e)))

  abbrev PostsAre : (ℕ → PostResult) → Batcher A → Type 0
  PostsAre answers b = b.posted ≡ requested answers 0 b.batches

  flush-PostsAre :
      (answers : ℕ → PostResult) (b : Batcher A)
      → PostsAre answers b
      → PostsAre answers (flush answers b)
  unfolding flush send_batch
  flush-PostsAre answers b h =
      let e : (if is_requested (answers (length b.batches))
            then b.posted ++ b.batch ∷ []
            else b.posted)
          ≡ requested answers 0 (b.batches ++ b.batch ∷ []) =
        rw h (sym (requested-snoc answers 0 (length b.batches) b.batches b.batch (omega arith))) in
      if_either (PostsAre answers) (is_empty b.batch) h
        (if_either (PostsAre answers) (is_accepted (answers (length b.batches))) e e)

  append_metric-PostsAre :
      (max_batch : ℕ) (answers : ℕ → PostResult) (x : A) (b : Batcher A)
      → PostsAre answers b
      → PostsAre answers (append_metric max_batch answers x b)
  unfolding append_metric
  append_metric-PostsAre max_batch answers x b h =
      let grown = record b { batch = b.batch ++ x ∷ [] } in
      if_either (PostsAre answers) (leb max_batch (length grown.batch))
        (flush-PostsAre answers grown h) h

  receive_metric-PostsAre :
      (max_batch : ℕ) (answers : ℕ → PostResult) (queue : List A) (b : Batcher A)
      → PostsAre answers b
      → PostsAre answers (receive_metric max_batch answers queue b)
  unfolding receive_metric
  receive_metric-PostsAre max_batch answers [] b h = h
  receive_metric-PostsAre max_batch answers (x ∷ queue) b h =
      append_metric-PostsAre max_batch answers x (record b { queue = queue }) h

  run-PostsAre :
      (max_batch : ℕ) (answers : ℕ → PostResult) (es : List (Event A)) (b : Batcher A)
      → PostsAre answers b
      → PostsAre answers (run max_batch answers es b)
  unfolding run step enqueue
  run-PostsAre max_batch answers [] b h = h
  run-PostsAre max_batch answers (produce x ∷ es) b h =
      run-PostsAre max_batch answers es (enqueue max_batch x b)
        (if_either (PostsAre answers) (ltb (length b.queue) (capacity max_batch)) h h)
  run-PostsAre max_batch answers (receive ∷ es) b h =
      run-PostsAre max_batch answers es _ (receive_metric-PostsAre max_batch answers b.queue b h)
  run-PostsAre max_batch answers (tick ∷ es) b h =
      run-PostsAre max_batch answers es _ (flush-PostsAre answers b h)

  drain-PostsAre :
      (max_batch : ℕ) (answers : ℕ → PostResult) (queue : List A) (b : Batcher A)
      → PostsAre answers b
      → PostsAre answers (drain max_batch answers queue b)
  unfolding drain
  drain-PostsAre max_batch answers [] b h = flush-PostsAre answers b h
  drain-PostsAre max_batch answers (x ∷ queue) b h =
      drain-PostsAre max_batch answers queue _
        (append_metric-PostsAre max_batch answers x (record b { queue = queue }) h)

  -- Whatever happens before it stops, a new batcher that has stopped has put the metrics it was given
  -- into batches, each once and in their order, but for those it has dropped, which are there in
  -- order too; and it has posted, in order, exactly the batches that can be written as JSON and for
  -- which a request can be made.
  pub stop-Delivers :
      (max_batch : ℕ) (answers : ℕ → PostResult) (es : List (Event A))
      → Delivers answers
          (produced es)
          (stop max_batch answers (run max_batch answers es new_batcher))
  unfolding stop
  stop-Delivers max_batch answers es = record {
    complete = stop-Interleaves max_batch answers es;
    posts =
        subst (Posts answers 0 _)
          (sym (
            drain-PostsAre max_batch answers _ _
              (run-PostsAre max_batch answers es new_batcher refl)))
          (requested-Posts answers 0 _);
  }
