-- ===== src/DataLayer/Processor/Stopping.antt =====
-- pkg/datalayer/processor.go, `Stop`: its waits come to an end.
use llm_d_inference_payload.Prelude.{
  ℕ, zero, suc, ◌<◌, ℤ, Bool, true, false, ◌||◌, List, [], ◌∷◌, Option, none, some, length,
  if◌then◌else◌, ◌≡◌, ◌≢◌, refl, sym, ap, subst, ◌∙◌, ◌⊎◌, inl, inr, arith, Bool-cases,
  Option-cases, List-cases, if_keeps,
}
use llm_d_inference_payload.DataLayer.Processor.{
  Processor, EventLoop, idle, running, exited, without_at, stop, stop_returns, launch, start,
  launch_from, launch_next, launch_pending_from, launch_pending, take_event, take_event_from,
  exit_loop, exit_from, exit_collector, exit_datasource, register_extractor, register_collector,
  register_datasource, notify, is_positive, Move, Action, launched, pending_launched, event_taken,
  loop_exited, collector_exited, datasource_exited, take_move, take_action, Reach, fresh, next,
  extractor_registered, collector_registered, datasource_registered, notified, start_called,
  stop_called, parent_cancelled, moved,
}
use llm_d_inference_payload.DataLayer.Processor.Shutdown.{
  measure, loop_measure, take_moves, IsEffective,
}

if_true : {A : Type 0} (b : Bool) (x y : A) → b ≡ true → (if b then x else y) ≡ x
if_true true x y h = refl
if_true false x y h = absurd (ground arith)

module _ {E X C D : Type 0} where
  -- A processor with an event loop, or a `Start` that is about to launch it.
  abbrev pub IsLaunched : Processor E X C D → Type 0
  IsLaunched p = p.event_loop ≡ EventLoop.idle → p.launching ≡ none → ⊥

  -- a move that leaves fewer moves, and keeps what the moves to come need
  abbrev Progress : Processor E X C D → Move → Type 0
  Progress p m =
      (measure (take_move m p) < measure p)
      × ((take_move m p).cancelled ≡ true)
      × IsLaunched (take_move m p)

  Progress-by :
      (p q : Processor E X C D) (m : Move)
      → take_move m p ≡ q
      → (measure q < measure p) × (q.cancelled ≡ true) × IsLaunched q
      → Progress p m
  Progress-by p q m e h =
      subst (λ z. (measure z < measure p) × (z.cancelled ≡ true) × IsLaunched z) (sym e) h

  exit_collector-Progress :
      (p : Processor E X C D) (c : C × ℤ) (cs : List (C × ℤ))
      → p.running_collectors ≡ c ∷ cs
      → p.cancelled ≡ true
      → IsLaunched p
      → Progress p (collector_exited 0)
  unfolding take_move exit_collector
  exit_collector-Progress p c cs e done up =
      Progress-by p (record p { running_collectors = without_at 0 p.running_collectors })
        (collector_exited 0) (if_true p.cancelled _ p done)
        (
          let old : length p.running_collectors ≡ suc (length cs) = ap length e in
              let new : length (without_at 0 p.running_collectors) ≡ length cs =
                ap (λ z. length (without_at 0 z)) e in
              omega arith,
          done,
          up,
        )

  exit_datasource-Progress :
      (p : Processor E X C D) (d : D) (ds : List D)
      → p.running_datasources ≡ d ∷ ds
      → p.cancelled ≡ true
      → IsLaunched p
      → Progress p (datasource_exited false 0)
  unfolding take_move exit_datasource
  exit_datasource-Progress p d ds e done up =
      Progress-by p (record p { running_datasources = without_at 0 p.running_datasources })
        (datasource_exited false 0) (if_true (p.cancelled || false) _ p (ground arith))
        (
          let old : length p.running_datasources ≡ suc (length ds) = ap length e in
              let new : length (without_at 0 p.running_datasources) ≡ length ds =
                ap (λ z. length (without_at 0 z)) e in
              omega arith,
          done,
          up,
        )

  -- the event loop, when no other goroutine is left
  loop-Progress :
      (l : EventLoop) (p : Processor E X C D)
      → p.event_loop ≡ l
      → p.running_collectors ≡ []
      → p.running_datasources ≡ []
      → p.cancelled ≡ true
      → IsLaunched p
      → (stop_returns p ≡ true) ⊎ ((m : Move) × Progress p m)
  unfolding take_move exit_loop stop_returns launch
  loop-Progress exited p e cs ds done up = inl (rw (cs, ds, e) refl)
  loop-Progress running p e cs ds done up = inr (
    loop_exited,
    Progress-by p (record p { event_loop = EventLoop.exited }) loop_exited
        (if_true p.cancelled _ p done ∙ ap (λ l. exit_from l p) e)
        (
          let one : loop_measure p.event_loop ≡ 1 = ap loop_measure e in omega arith,
          done,
          λ i. absurd (ground arith),
        ),
  )
  loop-Progress idle p e cs ds done up = elim (Option-cases p.launching) [
    | inl n ↦ absurd (up e n)
    | inr (snapshot, s) ↦ inr (
      launched,
      Progress-by p (record p { event_loop = EventLoop.running }) launched
          (ap (λ l. launch_from l p.launching p) e ∙ ap (λ o. launch_from EventLoop.idle o p) s)
          (
            let two : loop_measure p.event_loop ≡ 2 = ap loop_measure e in omega arith,
            done,
            λ i. absurd (ground arith),
          ),
    )
  ]

  progress :
      (p : Processor E X C D)
      → p.cancelled ≡ true
      → IsLaunched p
      → (stop_returns p ≡ true) ⊎ ((m : Move) × Progress p m)
  progress p done up = elim (List-cases p.running_collectors) [
    | inr (c, cs, e) ↦ inr (collector_exited 0, exit_collector-Progress p c cs e done up)
    | inl cs ↦ elim (List-cases p.running_datasources) [
      | inr (d, ds, e) ↦ inr (datasource_exited false 0, exit_datasource-Progress p d ds e done up)
      | inl ds ↦ loop-Progress p.event_loop p refl cs ds done up
    ]
  ]

  -- some moves, each of which changes the processor, end the waits of `Stop`
  abbrev pub Ends : Processor E X C D → Type 0
  Ends p = (ms : List Move) × IsEffective ms p × (stop_returns (take_moves ms p) ≡ true)

  moves_suffice :
      (n : ℕ) (p : Processor E X C D) → measure p < n → p.cancelled ≡ true → IsLaunched p → Ends p
  moves_suffice zero p h done up = absurd (omega arith)
  moves_suffice (suc n) p h done up = elim (progress p done up) [
    | inl r ↦ ([], tt, r)
    | inr (m, (less, done', up')) ↦
        let (ms, effective, r) = moves_suffice n (take_move m p) (omega arith) done' up' in
        let changes : take_move m p ≢ p = λ e.
          let same : measure (take_move m p) ≡ measure p = ap measure e in absurd (omega arith) in
        (m ∷ ms, (changes, effective), r)
  ]

  -- After `Start`, a loop that is idle is about to be launched.
  abbrev StartLaunches : Processor E X C D → Type 0
  StartLaunches p = p.started ≡ true → IsLaunched p

  launch_next-StartLaunches :
      (cs : List (C × ℤ)) (ds : List D) (p : Processor E X C D)
      → p.event_loop ≢ EventLoop.idle
      → StartLaunches (launch_next cs ds p)
  launch_next-StartLaunches (c ∷ cs) ds p n = λ s e. absurd (n e)
  launch_next-StartLaunches [] (d ∷ ds) p n = λ s e. absurd (n e)
  launch_next-StartLaunches [] [] p n = λ s e. absurd (n e)

  launch_from-StartLaunches :
      (l : EventLoop) (o : Option (List (C × ℤ) × List D)) (p : Processor E X C D)
      → p.event_loop ≡ l
      → StartLaunches p
      → StartLaunches (launch_from l o p)
  launch_from-StartLaunches l none p e h = h
  launch_from-StartLaunches idle (some snapshot) p e h = λ s i. absurd (ground arith)
  launch_from-StartLaunches running (some (cs, ds)) p e h =
      launch_next-StartLaunches cs ds p (λ i. absurd (ground arith))
  launch_from-StartLaunches exited (some (cs, ds)) p e h =
      launch_next-StartLaunches cs ds p (λ i. absurd (ground arith))

  launch_pending_from-StartLaunches :
      (ds : List D) (p : Processor E X C D)
      → StartLaunches p
      → StartLaunches (launch_pending_from ds p)
  launch_pending_from-StartLaunches [] p h = h
  launch_pending_from-StartLaunches (d ∷ ds) p h = h

  take_event_from-StartLaunches :
      (l : EventLoop) (es : List E) (p : Processor E X C D)
      → StartLaunches p
      → StartLaunches (take_event_from l es p)
  take_event_from-StartLaunches idle es p h = h
  take_event_from-StartLaunches exited es p h = h
  take_event_from-StartLaunches running [] p h = h
  take_event_from-StartLaunches running (e ∷ es) p h = h

  exit_from-StartLaunches :
      (l : EventLoop) (p : Processor E X C D) → StartLaunches p → StartLaunches (exit_from l p)
  exit_from-StartLaunches idle p h = h
  exit_from-StartLaunches exited p h = h
  exit_from-StartLaunches running p h = λ s e. absurd (ground arith)

  start-StartLaunches : (p : Processor E X C D) → StartLaunches p → StartLaunches (start p).0
  unfolding start
  start-StartLaunches p h = elim (Bool-cases p.started) [
    | inl e ↦ rw (e, start) (λ s. h e)
    | inr e ↦ elim (Bool-cases p.stopped) [
      | inl f ↦ rw (e, f, start) (λ s. absurd (ground arith))
      | inr f ↦ rw (e, f, start) (λ s i n. absurd (ground arith))
    ]
  ]

  take_move-StartLaunches :
      (m : Move) (p : Processor E X C D) → StartLaunches p → StartLaunches (take_move m p)
  unfolding take_move launch launch_pending take_event exit_loop exit_collector exit_datasource
  take_move-StartLaunches launched p h = launch_from-StartLaunches p.event_loop p.launching p refl h
  take_move-StartLaunches pending_launched p h = launch_pending_from-StartLaunches p.pending p h
  take_move-StartLaunches event_taken p h = take_event_from-StartLaunches p.event_loop p.ch p h
  take_move-StartLaunches loop_exited p h =
      if_keeps StartLaunches p.cancelled (exit_from-StartLaunches p.event_loop p h) h
  take_move-StartLaunches (collector_exited i) p h = if_keeps StartLaunches p.cancelled h h
  take_move-StartLaunches (datasource_exited failed i) p h =
      if_keeps StartLaunches (p.cancelled || failed) h h

  take_action-StartLaunches :
      (a : Action E X C D) (p : Processor E X C D)
      → StartLaunches p
      → StartLaunches (take_action a p)
  unfolding take_action register_extractor register_collector register_datasource notify stop
  take_action-StartLaunches (extractor_registered x) p h = if_keeps StartLaunches p.started h h
  take_action-StartLaunches (collector_registered c f) p h =
      if_keeps StartLaunches (is_positive f) h h
  take_action-StartLaunches (datasource_registered d) p h = h
  take_action-StartLaunches (notified e) p h = if_keeps StartLaunches _ h h
  take_action-StartLaunches start_called p h = start-StartLaunches p h
  take_action-StartLaunches stop_called p h = h
  take_action-StartLaunches parent_cancelled p h = h
  take_action-StartLaunches (moved m) p h = take_move-StartLaunches m p h

  Reach-StartLaunches : {p : Processor E X C D} → Reach p → StartLaunches p
  Reach-StartLaunches fresh = λ s. absurd (ground arith)
  Reach-StartLaunches (next r a) = take_action-StartLaunches a _ (Reach-StartLaunches r)

  -- `Stop` returns: from every state of a processor that was started, after `Stop` has cancelled
  -- its context the goroutines have moves, each of which changes the processor, that end the waits
  -- of `Stop`.
  pub stop-Ends : {p : Processor E X C D} → Reach p → p.started ≡ true → Ends (stop p)
  unfolding stop
  stop-Ends {p} r s =
      moves_suffice (suc (measure (stop p))) (stop p) (omega arith) (ground arith)
        (Reach-StartLaunches r s)
