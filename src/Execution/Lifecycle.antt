-- ===== src/Execution/Lifecycle.antt =====
-- waitForCommandExit of internal/execution/snippet_runner.go, as a machine over what it can receive:
-- the exit of the command, the end of the context, and the end of the grace period.
use gopoke.Base.{ℕ, ◌+◌, ◌≡◌, refl, Option, none, some, List, [], ◌∷◌}
use gopoke.Base.Int.{ℤ}

-- What command.Wait returns: nil, an *exec.ExitError with its code, or another error.
pub data Exit : Type 0 where
  clean : Exit
  code : ℤ → Exit
  wait_failed : Exit

pub data Event : Type 0 where
  exited : Exit → Event
  context_done timer : Event

-- Where the function stands: in its first select, in the second, or at the last receive.
pub data Phase : Type 0 where
  waiting grace killed : Phase
  returned : Exit → Phase

-- `interrupts` and `kills` count the calls of signalInterrupt and forceKill.
pub record Wait : Type 0 where
  pub phase : Phase
  pub interrupts : ℕ
  pub kills : ℕ

abbrev pub start : Wait
start = record { phase = waiting; interrupts = 0; kills = 0 }

abbrev pub move : Phase → Event → Wait → Wait
move waiting (exited e) w = record w { phase = returned e }
move waiting context_done w = record w { phase = grace; interrupts = w.interrupts + 1 }
move waiting timer w = w
move grace (exited e) w = record w { phase = returned e }
move grace context_done w = w
move grace timer w = record w { phase = killed; kills = w.kills + 1 }
move killed (exited e) w = record w { phase = returned e }
move killed context_done w = w
move killed timer w = w
move (returned e) event w = w

unfoldable pub step : Wait → Event → Wait
step w event = move w.phase event w

-- waitForCommandExit over the events that arrive, in their order.
unfoldable pub wait_from : Wait → List Event → Wait
unfolding step
wait_from w [] = w
wait_from w (event ∷ events) = wait_from (step w event) events

-- What happened before the command was seen to exit.
pub data Before : Type 0 where
  nothing done done_timer : Before

-- The specification: the first exit is returned; the interrupt is sent if the context ended before
-- it, and the kill if then the grace period ended too.
abbrev pub expected : Before → List Event → Before × Option Exit
expected b [] = (b, none)
expected b (exited e ∷ events) = (b, some e)
expected nothing (context_done ∷ events) = expected done events
expected nothing (timer ∷ events) = expected nothing events
expected done (context_done ∷ events) = expected done events
expected done (timer ∷ events) = expected done_timer events
expected done_timer (context_done ∷ events) = expected done_timer events
expected done_timer (timer ∷ events) = expected done_timer events

abbrev pub at : Before → Option Exit → Wait
at nothing none = record { phase = waiting; interrupts = 0; kills = 0 }
at nothing (some e) = record { phase = returned e; interrupts = 0; kills = 0 }
at done none = record { phase = grace; interrupts = 1; kills = 0 }
at done (some e) = record { phase = returned e; interrupts = 1; kills = 0 }
at done_timer none = record { phase = killed; interrupts = 1; kills = 1 }
at done_timer (some e) = record { phase = returned e; interrupts = 1; kills = 1 }

wait_returned :
    (b : Before) (e : Exit) (events : List Event) → wait_from (at b (some e)) events ≡ at b (some e)
unfolding wait_from
wait_returned b e [] = refl
wait_returned nothing e (event ∷ events) = wait_returned nothing e events
wait_returned done e (event ∷ events) = wait_returned done e events
wait_returned done_timer e (event ∷ events) = wait_returned done_timer e events

wait_lem :
    (b : Before) (events : List Event)
    → wait_from (at b none) events ≡ at (expected b events).0 (expected b events).1
unfolding wait_from
wait_lem nothing [] = refl
wait_lem done [] = refl
wait_lem done_timer [] = refl
wait_lem nothing (exited e ∷ events) = wait_returned nothing e events
wait_lem done (exited e ∷ events) = wait_returned done e events
wait_lem done_timer (exited e ∷ events) = wait_returned done_timer e events
wait_lem nothing (context_done ∷ events) = wait_lem done events
wait_lem nothing (timer ∷ events) = wait_lem nothing events
wait_lem done (context_done ∷ events) = wait_lem done events
wait_lem done (timer ∷ events) = wait_lem done_timer events
wait_lem done_timer (context_done ∷ events) = wait_lem done_timer events
wait_lem done_timer (timer ∷ events) = wait_lem done_timer events

-- Whatever arrives and in whatever order, the wait returns the first exit of the command. The
-- command is interrupted once if the context ended before that exit, and killed once if the grace
-- period then ended before it too, and otherwise not.
pub wait-expected :
    (events : List Event)
    → wait_from start events ≡ at (expected nothing events).0 (expected nothing events).1
wait-expected events = wait_lem nothing events
