-- ===== src/DataLayer/Processor/Delivery.antt =====
-- pkg/datalayer/processor.go: what becomes of the events, whatever the interleaving.
use llm_d_inference_payload.Prelude.{
  ℕ, suc, ◌≤◌, ℤ, ltb, Bool, false, ◌||◌, List, [], ◌∷◌, ◌++◌, Option, none, some, length,
  length-append, ◌≡◌, refl, sym, ap, ◌∙◌, inl, inr, arith, append-nil, append_assoc, Bool-cases,
  subst, if_keeps,
}
use llm_d_inference_payload.DataLayer.Processor.{
  Processor, EventLoop, idle, running, exited, is_positive, default_buffer_size, extract_calls,
  register_extractor, register_collector, register_datasource, notify, start, stop, launch,
  launch_from, launch_next, launch_pending_from, launch_pending, take_event, exit_loop,
  exit_collector, exit_datasource, Move, Action, take_move, take_action, Reach, fresh, next,
  launched, pending_launched, event_taken, loop_exited, collector_exited, datasource_exited,
  extractor_registered, collector_registered, datasource_registered, notified, start_called,
  stop_called, parent_cancelled, moved, take_event_from, exit_from,
}

-- the calls of the extractors with each of the events, in their order
abbrev pub all_calls : {E X : Type 0} → List X → List E → List (X × E)
all_calls xs [] = []
all_calls xs (e ∷ es) = extract_calls xs e ++ all_calls xs es

all_calls-snoc :
    {E X : Type 0} (xs : List X) (es : List E) (e : E)
    → all_calls xs (es ++ (e ∷ [])) ≡ all_calls xs es ++ extract_calls xs e
all_calls-snoc xs [] e = append-nil (extract_calls xs e)
all_calls-snoc xs (d ∷ es) e =
    ap (λ z. extract_calls xs d ++ z) (all_calls-snoc xs es e)
    ∙ sym (append_assoc (extract_calls xs d) (all_calls xs es) (extract_calls xs e))

module _ {E X C D : Type 0} where
  -- What holds of a processor between two steps. Before `Start` no event is delivered, and no
  -- event loop runs.
  abbrev pub IsValid : Processor E X C D → Type 0
  IsValid p =
      (length p.ch ≤ default_buffer_size)
      × (p.delivered ++ p.ch ≡ p.accepted)
      × (p.calls ≡ all_calls p.extractors p.delivered)
      × (p.started ≡ false
          → (p.delivered ≡ []) × (p.event_loop ≡ EventLoop.idle) × (p.launching ≡ none))

  register_extractor-IsValid :
      (x : X) (p : Processor E X C D) → IsValid p → IsValid (register_extractor x p)
  unfolding register_extractor
  register_extractor-IsValid x p (a, b, c, d) = elim (Bool-cases p.started) [
    | inl e ↦ rw (e, register_extractor) (a, b, c, λ x. absurd (ground arith))
    | inr e ↦
        let none_yet = (d e).0 in
        rw (e, register_extractor)
          (
            a,
            b,
            c
                ∙ ap (all_calls p.extractors) none_yet
                ∙ sym (ap (all_calls (p.extractors ++ (x ∷ []))) none_yet),
            λ _. d e,
          )
  ]

  notify-IsValid : (e : E) (p : Processor E X C D) → IsValid p → IsValid (notify e p)
  unfolding notify
  notify-IsValid e p (a, b, c, d) = elim (Bool-cases (ltb (length p.ch) default_buffer_size)) [
    | inl l ↦
        rw (l, notify)
          (
            grind (arith, length-append p.ch (e ∷ [])),
            sym (append_assoc p.delivered p.ch (e ∷ [])) ∙ ap (λ z. z ++ (e ∷ [])) b,
            c,
            d,
          )
    | inr l ↦ rw (l, notify) (a, b, c, d)
  ]

  register_collector-IsValid :
      (k : C) (f : ℤ) (p : Processor E X C D) → IsValid p → IsValid (register_collector k f p)
  unfolding register_collector
  register_collector-IsValid k f p v = elim (Bool-cases (is_positive f)) [
    | inl e ↦ rw (e, register_collector) v
    | inr e ↦ rw (e, register_collector) v
  ]

  start-IsValid : (p : Processor E X C D) → IsValid p → IsValid (start p).0
  unfolding start
  start-IsValid p (a, b, c, d) = elim (Bool-cases p.started) [
    | inl e ↦ rw (e, start) (a, b, c, λ x. absurd (ground arith))
    | inr e ↦ elim (Bool-cases p.stopped) [
      | inl f ↦ rw (e, f, start) (a, b, c, λ _. d e)
      | inr f ↦ rw (e, f, start) (a, b, c, λ x. absurd (ground arith))
    ]
  ]

  launch_next-IsValid :
      (cs : List (C × ℤ)) (ds : List D) (p : Processor E X C D)
      → p.launching ≡ some (cs, ds)
      → IsValid p
      → IsValid (launch_next cs ds p)
  launch_next-IsValid (x ∷ cs) ds p e (a, b, c, d) =
      (a, b, c, λ s. let n = (d s).2 in absurd (ground arith))
  launch_next-IsValid [] (x ∷ ds) p e (a, b, c, d) =
      (a, b, c, λ s. let n = (d s).2 in absurd (ground arith))
  launch_next-IsValid [] [] p e (a, b, c, d) =
      (a, b, c, λ s. let n = (d s).2 in absurd (ground arith))

  launch_from-IsValid :
      (l : EventLoop) (o : Option (List (C × ℤ) × List D)) (p : Processor E X C D)
      → p.launching ≡ o
      → IsValid p
      → IsValid (launch_from l o p)
  launch_from-IsValid l none p e v = v
  launch_from-IsValid idle (some snapshot) p e (a, b, c, d) =
      (a, b, c, λ s. let n = (d s).2 in absurd (ground arith))
  launch_from-IsValid running (some (cs, ds)) p e v = launch_next-IsValid cs ds p e v
  launch_from-IsValid exited (some (cs, ds)) p e v = launch_next-IsValid cs ds p e v

  take_event_step :
      (p : Processor E X C D) (e : E) (es : List E)
      → p.ch ≡ e ∷ es
      → (p.started ≡ false → p.event_loop ≡ EventLoop.idle)
      → p.event_loop ≡ EventLoop.running
      → IsValid p
      → IsValid (record p {
        ch = es;
        delivered = p.delivered ++ (e ∷ []);
        calls = p.calls ++ extract_calls p.extractors e;
      })
  take_event_step p e es q k r (a, b, c, d) = (
    let shorter : suc (length es) ≤ default_buffer_size =
          subst (λ z. length z ≤ default_buffer_size) q a in
        omega arith,
    append_assoc p.delivered (e ∷ []) es ∙ ap (λ z. p.delivered ++ z) (sym q) ∙ b,
    ap (λ z. z ++ extract_calls p.extractors e) c ∙ sym (all_calls-snoc p.extractors p.delivered e),
    λ x. let unstarted = k x in absurd (ground arith),
  )

  take_event_from-IsValid :
      (l : EventLoop) (es : List E) (p : Processor E X C D)
      → p.event_loop ≡ l
      → p.ch ≡ es
      → IsValid p
      → IsValid (take_event_from l es p)
  take_event_from-IsValid idle es p e q v = v
  take_event_from-IsValid exited es p e q v = v
  take_event_from-IsValid running [] p e q v = v
  take_event_from-IsValid running (x ∷ xs) p e q v = take_event_step p x xs q (λ s. (v.3 s).1) e v

  exit_from-IsValid :
      (l : EventLoop) (p : Processor E X C D)
      → p.event_loop ≡ l
      → IsValid p
      → IsValid (exit_from l p)
  exit_from-IsValid idle p e v = v
  exit_from-IsValid exited p e v = v
  exit_from-IsValid running p e (a, b, c, d) =
      (a, b, c, λ x. let (_, unstarted, _) = d x in absurd (ground arith))

  exit_loop-IsValid : (p : Processor E X C D) → IsValid p → IsValid (exit_loop p)
  unfolding exit_loop
  exit_loop-IsValid p v = if_keeps IsValid p.cancelled (exit_from-IsValid p.event_loop p refl v) v

  launch_pending_from-IsValid :
      (ds : List D) (p : Processor E X C D) → IsValid p → IsValid (launch_pending_from ds p)
  launch_pending_from-IsValid [] p v = v
  launch_pending_from-IsValid (d ∷ ds) p v = v

  exit_collector-IsValid :
      (i : ℕ) (p : Processor E X C D) → IsValid p → IsValid (exit_collector i p)
  unfolding exit_collector
  exit_collector-IsValid i p v = elim (Bool-cases p.cancelled) [
    | inl e ↦ rw (e, exit_collector) v
    | inr e ↦ rw (e, exit_collector) v
  ]

  exit_datasource-IsValid :
      (failed : Bool) (i : ℕ) (p : Processor E X C D)
      → IsValid p
      → IsValid (exit_datasource failed i p)
  unfolding exit_datasource
  exit_datasource-IsValid failed i p v = elim (Bool-cases (p.cancelled || failed)) [
    | inl e ↦ rw (e, exit_datasource) v
    | inr e ↦ rw (e, exit_datasource) v
  ]

  take_move-IsValid : (m : Move) (p : Processor E X C D) → IsValid p → IsValid (take_move m p)
  unfolding take_move launch launch_pending take_event
  take_move-IsValid launched p v = launch_from-IsValid p.event_loop p.launching p refl v
  take_move-IsValid pending_launched p v = launch_pending_from-IsValid p.pending p v
  take_move-IsValid event_taken p v = take_event_from-IsValid p.event_loop p.ch p refl refl v
  take_move-IsValid loop_exited p v = exit_loop-IsValid p v
  take_move-IsValid (collector_exited i) p v = exit_collector-IsValid i p v
  take_move-IsValid (datasource_exited failed i) p v = exit_datasource-IsValid failed i p v

  take_action-IsValid :
      (a : Action E X C D) (p : Processor E X C D) → IsValid p → IsValid (take_action a p)
  unfolding take_action register_datasource stop
  take_action-IsValid (extractor_registered x) p v = register_extractor-IsValid x p v
  take_action-IsValid (collector_registered c f) p v = register_collector-IsValid c f p v
  take_action-IsValid (datasource_registered d) p v = v
  take_action-IsValid (notified e) p v = notify-IsValid e p v
  take_action-IsValid start_called p v = start-IsValid p v
  take_action-IsValid stop_called p v = v
  take_action-IsValid parent_cancelled p v = v
  take_action-IsValid (moved m) p v = take_move-IsValid m p v

  -- Whatever the callers and the goroutines do, and in whatever order: the channel holds at most
  -- 10000 events; the events that it took are those that were delivered and those that wait, in
  -- their order, so that none is lost or delivered twice; and the calls of the extractors are those
  -- of every registered extractor, in the order of their registration, with each delivered event.
  pub Reach-IsValid : {p : Processor E X C D} → Reach p → IsValid p
  Reach-IsValid fresh = (omega arith, refl, refl, λ x. (refl, refl, refl))
  Reach-IsValid (next r a) = take_action-IsValid a _ (Reach-IsValid r)
