-- ===== src/Batcher/Tests.antt =====
-- Five metrics through a batcher of two.
use redborder_monitor.Base.{ℕ, ◌≡◌, refl, List, [], ◌∷◌, zero, suc, arith}
use redborder_monitor.Batcher.{
  PostResult, status, request_failed, Event, produce, receive, tick, new_batcher, run, stop,
  enqueue, send_batch, flush, append_metric, receive_metric, step, drain,
}
use redborder_monitor.Batcher.Order.{produced}
use redborder_monitor.Batcher.Posts.{Delivers, stop-Delivers}
use redborder_monitor.Batcher.Bounds.{IsValid, run-IsValid}

abbrev events : List (Event ℕ)
events = produce 1 ∷ produce 2 ∷ receive ∷ receive ∷ produce 3 ∷ receive ∷ tick ∷ produce 4 ∷ []

abbrev answers : ℕ → PostResult
answers zero = status 200
answers (suc n) = status 500

posts :
    (stop 2 answers (run 2 answers events new_batcher)).posted
    ≡ (1 ∷ 2 ∷ []) ∷ (3 ∷ []) ∷ (4 ∷ []) ∷ []
unfolding run step enqueue receive_metric append_metric flush send_batch stop drain
posts = refl

stop-Delivers_example :
    Delivers answers (produced events) (stop 2 answers (run 2 answers events new_batcher))
stop-Delivers_example = stop-Delivers 2 answers events

-- a batch for which no request can be made is not posted
abbrev no_request : ℕ → PostResult
no_request zero = request_failed
no_request (suc n) = status 200

not_posted :
    (stop 2 no_request (run 2 no_request events new_batcher)).posted ≡ (3 ∷ []) ∷ (4 ∷ []) ∷ []
unfolding run step enqueue receive_metric append_metric flush send_batch stop drain
not_posted = refl

run-IsValid_example :
    IsValid 2 (run 2 answers events new_batcher)
    × IsValid 2 (stop 2 answers (run 2 answers events new_batcher))
run-IsValid_example = run-IsValid 2 answers events (omega arith)
