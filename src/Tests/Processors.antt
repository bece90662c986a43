-- ===== src/Tests/Processors.antt =====
-- The processor of the data layer.
use llm_d_inference_payload.Prelude.{ℕ, pos, true, [], ◌∷◌, ◌≡◌, refl}
use llm_d_inference_payload.DataLayer.Processor.{
  Processor, new_processor, register_extractor, register_collector, notify, start, stop,
  stop_returns, launch, take_event, exit_loop, exit_collector, launched, event_taken, loop_exited,
  collector_exited, extractor_registered, collector_registered, notified, start_called, moved,
  Reach, fresh, next, take_move, take_action,
}
use llm_d_inference_payload.DataLayer.Processor.Delivery.{IsValid, Reach-IsValid}
use llm_d_inference_payload.DataLayer.Processor.Shutdown.{take_moves}
use llm_d_inference_payload.DataLayer.Processor.Stopping.{Ends, stop-Ends}

-- numbers for the events and the plugins
abbrev P : Type 0
P = Processor ℕ ℕ ℕ ℕ

abbrev registered : P
registered =
    take_action (collector_registered 7 (pos 1000))
      (take_action (extractor_registered 2) (take_action (extractor_registered 1) new_processor))

abbrev up : P
up = take_action (notified 5) (
    take_action (moved launched)
      (take_action (moved launched) (take_action start_called registered)))

up_reached : Reach up
up_reached =
    next
      (next
        (next
          (next
            (next (next (next fresh (extractor_registered 1)) (extractor_registered 2))
              (collector_registered 7 (pos 1000)))
            start_called)
          (moved launched))
        (moved launched))
      (notified 5)

delivers : (take_move event_taken up).calls ≡ (1, 5) ∷ (2, 5) ∷ []
unfolding take_action take_move register_extractor register_collector notify start launch take_event
delivers = refl

stops : stop_returns (take_moves (collector_exited 0 ∷ loop_exited ∷ []) (stop up)) ≡ true
unfolding take_action take_move register_extractor register_collector notify start launch stop
    exit_loop exit_collector stop_returns
stops = refl

Reach-IsValid_example : IsValid up
Reach-IsValid_example = Reach-IsValid up_reached

up_started : up.started ≡ true
unfolding take_action take_move register_extractor register_collector notify start launch
up_started = refl

stop-Ends_example : Ends (stop up)
stop-Ends_example = stop-Ends up_reached up_started
