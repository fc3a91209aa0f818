-- ===== src/Output/Quiet.antt =====
-- A state that is read a second time.
use redborder_monitor.Base.{
  ℕ, suc, ◌+◌, ◌≡◌, refl, ap, true, false, Option, none, some, List, [], ◌∷◌, All, arith,
}
use redborder_monitor.Base.Map.{Map}
use redborder_monitor.Base.Float.{Float}
use redborder_monitor.Model.{Json, Monitor}
use redborder_monitor.Values.{MonitorValue, MonitorState, is_one, child_at}
use redborder_monitor.Output.{
  Outbox, is_muted, should_send, output_scalar, output_children, output_aggregate, output_metrics,
}

module _ {F : Type 0} ⦃fl : Float F⦄ where
  -- a value that equals itself, which every double but NaN does
  abbrev pub IsReflexive : Option (MonitorValue F) → Type 0
  IsReflexive none = Unit
  IsReflexive (some v) = fl.float_eq v.value v.value ≡ true

  should_send_again :
      (v : MonitorValue F)
      → fl.float_eq v.value v.value ≡ true
      → should_send true v (some v) ≡ false
  unfolding should_send
  should_send_again v h = ground arith

  output_scalar_again :
      (m : Monitor F) (enrichment : Map (Json F)) (st : MonitorState F)
      (c : Option (MonitorValue F)) (o : Outbox F)
      → is_one m.timestamp_given ≡ true
      → IsReflexive c
      → st.scalar ≡ c
      → output_scalar m enrichment (some st) c o ≡ o
  unfolding output_scalar
  output_scalar_again m enrichment st none o t h e = refl
  output_scalar_again m enrichment st (some v) o t h e = rw (t, e, should_send_again v h) refl

  output_children_again :
      (m : Monitor F) (enrichment : Map (Json F)) (st : MonitorState F) (k : ℕ)
      (cs : List (Option (MonitorValue F))) (o : Outbox F)
      → is_one m.timestamp_given ≡ true
      → All IsReflexive cs
      → ((i j : ℕ) → k + i ≡ j → child_at st.children j ≡ child_at cs i)
      → output_children m enrichment (some st) k cs o ≡ o
  unfolding output_children
  output_children_again m enrichment st k [] o t h e = refl
  output_children_again m enrichment st k (none ∷ cs) o t h e =
      output_children_again m enrichment st (k + 1) cs o t h.1 (λ i j p. e (suc i) j (omega arith))
  output_children_again m enrichment st k (some v ∷ cs) o t h e =
      rw (t, e 0 k (omega arith), should_send_again v h.0)
        (output_children_again m enrichment st (k + 1) cs o t h.1
          (λ i j p. e (suc i) j (omega arith)))

  -- Where the source gives the times, a state that is the cached one, without NaN, publishes nothing
  -- but its aggregate.
  pub output_metrics_again :
      (m : Monitor F) (st : MonitorState F) (enrichment : Map (Json F)) (o : Outbox F)
      → is_one m.timestamp_given ≡ true
      → is_muted m.send ≡ false
      → IsReflexive st.scalar
      → All IsReflexive st.children
      → output_metrics m st (some st) enrichment o ≡ output_aggregate m enrichment st.split_op o
  unfolding output_metrics
  output_metrics_again m st enrichment o t s h k = simp (
    s,
    output_scalar_again m enrichment st st.scalar o t h refl,
    output_children_again m enrichment st 0 st.children o t k
        (λ i j p. let e : j ≡ i = omega arith in ap (child_at st.children) e),
  )
