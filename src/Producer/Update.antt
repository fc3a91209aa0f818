-- ===== src/Producer/Update.antt =====
-- A reload leaves no output behind that the new configuration does not ask for.
use redborder_monitor.Base.{
  ◌≡◌, refl, ap, ◌∙◌, Bool, true, false, not, ◌||◌, List, [], ◌∷◌, arith, Bool-cases, inl, inr,
}
use redborder_monitor.Base.Text.{same_iff}
use redborder_monitor.Base.Int.{ℤ, pos, negsuc, eqb_ℤ}
use redborder_monitor.Model.{Conf, Config}
use redborder_monitor.Producer.{
  Producer, kafka_of, http_of, client_of, new_metric_producer, kafka_changed, http_changed,
  update_config,
}

eqb_ℤ_eq : (a b : ℤ) → eqb_ℤ a b ≡ true → a ≡ b
eqb_ℤ_eq (pos n) (pos m) h = let e : n ≡ m = ground arith in ap pos e
eqb_ℤ_eq (pos n) (negsuc m) h = let e : ⊥ = ground arith in absurd e
eqb_ℤ_eq (negsuc n) (pos m) h = let e : ⊥ = ground arith in absurd e
eqb_ℤ_eq (negsuc n) (negsuc m) h = let e : n ≡ m = ground arith in ap negsuc e

-- the last of the differences, and the others
or-false : (a b : Bool) → (a || not b) ≡ false → (b ≡ true) × (a ≡ false)
or-false true b h = cc h
or-false false true h = (refl, refl)
or-false false false h = cc h

not-false : (a : Bool) → not a ≡ false → a ≡ true
not-false true h = refl
not-false false h = cc h

module _ {F : Type 0} where
  kafka_of-same : (old new : Conf F) → kafka_changed old new ≡ false → kafka_of new ≡ kafka_of old
  unfolding kafka_of
  kafka_of-same old new h =
      let (a, r) = or-false _ _ h in
      let (b, s) = or-false _ _ r in
      let timeout : old.kafka_timeout ≡ new.kafka_timeout = eqb_ℤ_eq _ _ a in
      let topic : old.kafka_topic ≡ new.kafka_topic = (same_iff _ _).0 b in
      let broker : old.kafka_broker ≡ new.kafka_broker = (same_iff _ _).0 (not-false _ s) in
      simp (broker, topic, timeout)

  http_of-same : (old new : Conf F) → http_changed old new ≡ false → http_of new ≡ http_of old
  unfolding http_of client_of
  http_of-same old new h =
      let (a, r) = or-false _ _ h in
      let (b, s) = or-false _ _ r in
      let (c, t) = or-false _ _ s in
      let (d, u) = or-false _ _ t in
      let (e, v) = or-false _ _ u in
      let (f, w) = or-false _ _ v in
      let (g, x) = or-false _ _ w in
      let endpoint : old.http_endpoint ≡ new.http_endpoint = (same_iff _ _).0 (not-false _ x) in
      let mode : old.rb_http_mode ≡ new.rb_http_mode = (same_iff _ _).0 g in
      let messages : old.rb_http_max_messages ≡ new.rb_http_max_messages = eqb_ℤ_eq _ _ f in
      let timer : old.rb_http_flush_timer ≡ new.rb_http_flush_timer = eqb_ℤ_eq _ _ e in
      let insecure : old.http_insecure ≡ new.http_insecure = eqb_ℤ_eq _ _ d in
      let conns : old.http_max_total_connections ≡ new.http_max_total_connections =
        eqb_ℤ_eq _ _ c in
      let timeout : old.http_timeout ≡ new.http_timeout = eqb_ℤ_eq _ _ b in
      let connect : old.http_conn_timeout ≡ new.http_conn_timeout = eqb_ℤ_eq _ _ a in
      simp (endpoint, mode, messages, timer, insecure, conns, timeout, connect)

  update_config-new :
      (old new : Config F) → update_config new (new_metric_producer old) ≡ new_metric_producer new
  unfolding update_config new_metric_producer
  update_config-new old new = elim (Bool-cases (kafka_changed old.conf new.conf)) [
    | inl k ↦ elim (Bool-cases (http_changed old.conf new.conf)) [
      | inl h ↦ rw (k, h) refl
      | inr h ↦ rw (k, h, http_of-same old.conf new.conf h) refl
    ]
    | inr k ↦ elim (Bool-cases (http_changed old.conf new.conf)) [
      | inl h ↦ rw (k, h, kafka_of-same old.conf new.conf k) refl
      | inr h ↦ rw (k, h, kafka_of-same old.conf new.conf k, http_of-same old.conf new.conf h) refl
    ]
  ]

  -- The producer behind some reloads, the last one at the head.
  abbrev pub reloaded : Config F → List (Config F) → Producer F
  reloaded first [] = new_metric_producer first
  reloaded first (c ∷ cs) = update_config c (reloaded first cs)

  abbrev pub last_config : Config F → List (Config F) → Config F
  last_config first [] = first
  last_config first (c ∷ cs) = c

  -- Behind any reloads the outputs are those that a new producer has for the last configuration.
  pub reloaded-new :
      (first : Config F) (cs : List (Config F))
      → reloaded first cs ≡ new_metric_producer (last_config first cs)
  reloaded-new first [] = refl
  reloaded-new first (c ∷ cs) =
      ap (update_config c) (reloaded-new first cs) ∙ update_config-new (last_config first cs) c
