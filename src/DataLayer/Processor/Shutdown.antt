-- ===== src/DataLayer/Processor/Shutdown.antt =====
-- pkg/datalayer/processor.go, `Stop`: what the goroutines have left to do.
use llm_d_inference_payload.Prelude.{ℕ, ◌+◌, ◌*◌, ℤ, List, [], ◌∷◌, Option, none, some, length, ◌≢◌}
use llm_d_inference_payload.DataLayer.Processor.{
  Processor, EventLoop, idle, running, exited, Move, take_move,
}

abbrev pub loop_measure : EventLoop → ℕ
loop_measure idle = 2
loop_measure running = 1
loop_measure exited = 0

abbrev pub launch_measure : {C D : Type 0} → Option (List (C × ℤ) × List D) → ℕ
launch_measure none = 0
launch_measure (some (cs, ds)) = 1 + 2 * length cs + 2 * length ds

module _ {E X C D : Type 0} where
  -- The moves that the goroutines have left: one for each that runs, two for each that is to be
  -- launched and one for the end of the launch, and one for each event that waits.
  abbrev pub measure : Processor E X C D → ℕ
  measure p =
      launch_measure p.launching
      + 2 * length p.pending
      + length p.running_collectors
      + length p.running_datasources
      + loop_measure p.event_loop
      + length p.ch

  abbrev pub take_moves : List Move → Processor E X C D → Processor E X C D
  take_moves [] p = p
  take_moves (m ∷ ms) p = take_moves ms (take_move m p)

  -- each of the moves changes the processor
  abbrev pub IsEffective : List Move → Processor E X C D → Type 0
  IsEffective [] p = Unit
  IsEffective (m ∷ ms) p = (take_move m p ≢ p) × IsEffective ms (take_move m p)
