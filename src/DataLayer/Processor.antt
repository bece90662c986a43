-- ===== src/DataLayer/Processor.antt =====
-- pkg/datalayer/processor.go: the processor of events, collectors and data sources, as a state
-- machine. A goroutine is an entry of the state; what it does between two blocking points is one
-- step, and an interleaving is a list of steps. `E` is the events, `X` the extractors, `C` the
-- collectors and `D` the data sources; a frequency is a number of nanoseconds. A poll of a
-- collector and the wait before it change nothing of the processor, so they are no steps.
pub mod Delivery
pub mod Shutdown
pub mod Stopping
use llm_d_inference_payload.Prelude.{
  Bytes, codes, ℕ, zero, suc, ◌+◌, ◌*◌, ℤ, pos, negsuc, ltb, leb, Bool, true, false, not, ◌&&◌,
  ◌||◌, List, [], ◌∷◌, ◌++◌, map, Option, none, some, length, is_empty, get_elem?, if◌then◌else◌,
  ◌≡◌, ◌⊎◌, inl, inr, refl,
}

-- the goroutine of the event loop
pub data EventLoop : Type 0 where
  idle : EventLoop
  running : EventLoop
  exited : EventLoop

pub record Processor (E X C D : Type 0) : Type 0 where
  -- the channel of events, the oldest first
  pub ch : List E
  pub extractors : List X
  pub collectors : List (C × ℤ)
  pub datasources : List D
  pub started : Bool
  pub stopped : Bool
  -- the context that `Start` made is done
  pub cancelled : Bool
  pub event_loop : EventLoop
  -- what a `Start` that has left its lock has still to launch
  pub launching : Option (List (C × ℤ) × List D)
  -- the data sources of calls of `RegisterDatasource` that have left the lock and not launched yet
  pub pending : List D
  -- the collectors and the data sources that have a goroutine, with the collector's jitter
  pub running_collectors : List (C × ℤ)
  pub running_datasources : List D
  -- The history: the events that the channel took, those that the loop took from it, and the calls
  -- of `Extract`.
  pub accepted : List E
  pub delivered : List E
  pub calls : List (X × E)

abbrev pub default_buffer_size : ℕ
default_buffer_size = 10_000

-- the smaller of 200 ms for each collector and the collector's own frequency
unfoldable pub jitter_cap : ℕ → ℤ → ℤ
jitter_cap count (negsuc n) = negsuc n
jitter_cap count (pos n) = if ltb n (count * 200_000_000) then pos n else pos (count * 200_000_000)

abbrev pub is_positive : ℤ → Bool
is_positive (pos zero) = false
is_positive (pos (suc n)) = true
is_positive (negsuc n) = false

abbrev pub without_at {ℓ} : {A : Type ℓ} → ℕ → List A → List A
without_at i [] = []
without_at zero (x ∷ xs) = xs
without_at (suc i) (x ∷ xs) = x ∷ without_at i xs

-- the collectors of a snapshot, each with its jitter
unfoldable pub with_jitter : {C : Type 0} → ℕ → List (C × ℤ) → List (C × ℤ)
unfolding jitter_cap
with_jitter count [] = []
with_jitter count ((c, frequency) ∷ cs) = (c, jitter_cap count frequency) ∷ with_jitter count cs

-- the calls of the extractors with an event
unfoldable pub extract_calls : {E X : Type 0} → List X → E → List (X × E)
extract_calls [] e = []
extract_calls (x ∷ xs) e = (x, e) ∷ extract_calls xs e

module _ {E X C D : Type 0} where
  -- `NewProcessor`
  abbrev pub new_processor : Processor E X C D
  new_processor = record {
    ch = [];
    extractors = [];
    collectors = [];
    datasources = [];
    started = false;
    stopped = false;
    cancelled = false;
    event_loop = EventLoop.idle;
    launching = none;
    pending = [];
    running_collectors = [];
    running_datasources = [];
    accepted = [];
    delivered = [];
    calls = [];
  }

  unfoldable pub register_extractor : X → Processor E X C D → Processor E X C D
  register_extractor x p =
      if p.started then p else record p { extractors = p.extractors ++ (x ∷ []) }

  unfoldable pub register_collector : C → ℤ → Processor E X C D → Processor E X C D
  register_collector c frequency p =
      if is_positive frequency
      then record p {
        collectors = p.collectors ++ ((c, frequency) ∷ []);
        running_collectors =
            if p.started && not p.stopped
            then p.running_collectors ++ ((c, frequency) ∷ [])
            else p.running_collectors;
      }
      else p

  -- the part of `RegisterDatasource` under the lock; `launch_pending` is the rest
  unfoldable pub register_datasource : D → Processor E X C D → Processor E X C D
  register_datasource d p = record p {
    datasources = p.datasources ++ (d ∷ []);
    pending = if p.started && not p.stopped then p.pending ++ (d ∷ []) else p.pending;
  }

  unfoldable pub notify : E → Processor E X C D → Processor E X C D
  notify e p =
      if ltb (length p.ch) default_buffer_size
      then record p { ch = p.ch ++ (e ∷ []); accepted = p.accepted ++ (e ∷ []) }
      else p

  -- the part of `Start` under the lock, with its error; `launch` is the rest, step by step. The
  -- snapshot of the collectors has their jitter, which depends on the snapshot alone.
  unfoldable pub start : Processor E X C D → Processor E X C D × Option Bytes
  unfolding with_jitter
  start p =
      if p.started
      then (p, some (codes "Processor already started"))
      else if p.stopped
      then (p, some (codes "Processor already stopped"))
      else (
        record p {
          started = true;
          launching = some (with_jitter (length p.collectors) p.collectors, p.datasources);
        },
        none,
      )

  -- `Stop` up to the waits; there is no `cancel` before `Start`
  unfoldable pub stop : Processor E X C D → Processor E X C D
  stop p = record p { stopped = true; cancelled = p.cancelled || p.started }

  -- the waits of `Stop` are over: no goroutine is counted, and the event loop has exited
  unfoldable pub stop_returns : Processor E X C D → Bool
  stop_returns p =
      is_empty p.running_collectors
      && is_empty p.running_datasources
      && (elim p.event_loop [ exited ↦ true | _ ↦ false ])

  -- the launch of the next goroutine of the snapshots
  abbrev pub launch_next : List (C × ℤ) → List D → Processor E X C D → Processor E X C D
  launch_next (c ∷ cs) ds p = record p {
    launching = some (cs, ds);
    running_collectors = p.running_collectors ++ (c ∷ []);
  }
  launch_next [] (d ∷ ds) p = record p {
    launching = some ([], ds);
    running_datasources = p.running_datasources ++ (d ∷ []);
  }
  launch_next [] [] p = record p { launching = none }

  -- one step of the rest of `Start`: it starts the event loop and waits until that runs, then
  -- launches one goroutine after the other, the collectors first, and returns
  abbrev pub launch_from :
      EventLoop → Option (List (C × ℤ) × List D) → Processor E X C D → Processor E X C D
  launch_from l none p = p
  launch_from idle (some snapshot) p = record p { event_loop = EventLoop.running }
  launch_from running (some (cs, ds)) p = launch_next cs ds p
  launch_from exited (some (cs, ds)) p = launch_next cs ds p

  unfoldable pub launch : Processor E X C D → Processor E X C D
  launch p = launch_from p.event_loop p.launching p

  abbrev pub launch_pending_from : List D → Processor E X C D → Processor E X C D
  launch_pending_from [] p = p
  launch_pending_from (d ∷ ds) p = record p {
    pending = ds;
    running_datasources = p.running_datasources ++ (d ∷ []);
  }

  unfoldable pub launch_pending : Processor E X C D → Processor E X C D
  launch_pending p = launch_pending_from p.pending p

  -- a round of the event loop that takes an event; an error of an extractor is only logged
  abbrev pub take_event_from : EventLoop → List E → Processor E X C D → Processor E X C D
  take_event_from running (e ∷ es) p = record p {
    ch = es;
    delivered = p.delivered ++ (e ∷ []);
    calls = p.calls ++ extract_calls p.extractors e;
  }
  take_event_from running [] p = p
  take_event_from idle es p = p
  take_event_from exited es p = p

  unfoldable pub take_event : Processor E X C D → Processor E X C D
  unfolding extract_calls
  take_event p = take_event_from p.event_loop p.ch p

  -- a round of the event loop that finds the context done
  abbrev pub exit_from : EventLoop → Processor E X C D → Processor E X C D
  exit_from running p = record p { event_loop = EventLoop.exited }
  exit_from idle p = p
  exit_from exited p = p

  unfoldable pub exit_loop : Processor E X C D → Processor E X C D
  exit_loop p = if p.cancelled then exit_from p.event_loop p else p

  -- the collector at an index finds the context done
  unfoldable pub exit_collector : ℕ → Processor E X C D → Processor E X C D
  exit_collector i p =
      if p.cancelled then record p { running_collectors = without_at i p.running_collectors } else p

  -- The data source at an index finds the context done and is stopped, or its start has failed.
  unfoldable pub exit_datasource : Bool → ℕ → Processor E X C D → Processor E X C D
  exit_datasource failed i p =
      if p.cancelled || failed
      then record p { running_datasources = without_at i p.running_datasources }
      else p

-- what the goroutines do by themselves
pub data Move : Type 0 where
  launched : Move
  pending_launched : Move
  event_taken : Move
  loop_exited : Move
  collector_exited : ℕ → Move
  datasource_exited : Bool → ℕ → Move

-- What the callers do, or a goroutine; the parent of the context may be cancelled too.
pub data Action (E X C D : Type 0) : Type 0 where
  extractor_registered : X → Action E X C D
  collector_registered : C → ℤ → Action E X C D
  datasource_registered : D → Action E X C D
  notified : E → Action E X C D
  start_called : Action E X C D
  stop_called : Action E X C D
  parent_cancelled : Action E X C D
  moved : Move → Action E X C D

module _ {E X C D : Type 0} where
  unfoldable pub take_move : Move → Processor E X C D → Processor E X C D
  take_move launched p = launch p
  take_move pending_launched p = launch_pending p
  take_move event_taken p = take_event p
  take_move loop_exited p = exit_loop p
  take_move (collector_exited i) p = exit_collector i p
  take_move (datasource_exited failed i) p = exit_datasource failed i p

  unfoldable pub take_action : Action E X C D → Processor E X C D → Processor E X C D
  take_action (extractor_registered x) p = register_extractor x p
  take_action (collector_registered c f) p = register_collector c f p
  take_action (datasource_registered d) p = register_datasource d p
  take_action (notified e) p = notify e p
  take_action start_called p = (start p).0
  take_action stop_called p = stop p
  take_action parent_cancelled p = record p { cancelled = true }
  take_action (moved m) p = take_move m p

  -- the states that some interleaving of actions leads to
  pub data Reach : Processor E X C D → Type 0 where
    fresh : Reach new_processor
    next : {p : Processor E X C D} → Reach p → (a : Action E X C D) → Reach (take_action a p)
