-- ===== src/Lsp/Stop.antt =====
-- gracefulStopProcess of internal/lsp/proxy.go, as a machine over what it can receive: the exit of
-- gopls, and the end of the grace period.
use gopoke.Base.{ℕ, ◌+◌, ◌≡◌, refl, Bool, true, false, List, [], ◌∷◌, any, if◌then◌else◌}

-- What Process.Signal returns: nil, os.ErrProcessDone, or another error.
pub data Signal : Type 0 where
  sent finished failed : Signal

pub data Event : Type 0 where
  exited timer : Event

-- In the select, at a command.Wait or a receive that only an exit ends, or past the return.
pub data Phase : Type 0 where
  grace last returned : Phase

-- `kills` counts the calls of Process.Kill.
pub record Stopping : Type 0 where
  pub phase : Phase
  pub kills : ℕ

-- What precedes the select.
abbrev pub begin : Signal → Stopping
begin sent = record { phase = grace; kills = 0 }
begin finished = record { phase = last; kills = 0 }
begin failed = record { phase = last; kills = 1 }

abbrev pub move : Phase → Event → Stopping → Stopping
move grace exited s = record s { phase = returned }
move grace timer s = record { phase = last; kills = s.kills + 1 }
move last exited s = record s { phase = returned }
move last timer s = s
move returned event s = s

unfoldable pub run : Stopping → List Event → Stopping
run s [] = s
run s (event ∷ events) = run (move s.phase event s) events

-- gracefulStopProcess of a process that has been started.
unfoldable pub graceful_stop_process : Signal → List Event → Stopping
unfolding run
graceful_stop_process signal events = run (begin signal) events

abbrev pub is_exit : Event → Bool
is_exit exited = true
is_exit timer = false

-- Whether the grace period ends before the process.
abbrev pub late : List Event → Bool
late [] = false
late (exited ∷ events) = false
late (timer ∷ events) = true

abbrev phase_of : Bool → Phase → Phase
phase_of true p = returned
phase_of false p = p

-- What the stop should come to.
abbrev pub expected : Signal → List Event → Stopping
expected sent events = record {
  phase = phase_of (any is_exit events) (if late events then last else grace);
  kills = if late events then 1 else 0;
}
expected finished events = record { phase = phase_of (any is_exit events) last; kills = 0 }
expected failed events = record { phase = phase_of (any is_exit events) last; kills = 1 }

run-returned :
    (n : ℕ) (events : List Event)
    → run (record { phase = returned; kills = n }) events ≡ record { phase = returned; kills = n }
unfolding run
run-returned n [] = refl
run-returned n (event ∷ events) = run-returned n events

run-last :
    (n : ℕ) (events : List Event)
    → run (record { phase = last; kills = n }) events
      ≡ record { phase = phase_of (any is_exit events) last; kills = n }
unfolding run
run-last n [] = refl
run-last n (exited ∷ events) = run-returned n events
run-last n (timer ∷ events) = run-last n events

-- Whatever happens and in whatever order: gracefulStopProcess returns as soon as gopls has exited and
-- not before, and it kills gopls exactly if it could not be interrupted, or if it was and the grace
-- period has ended before it exits.
pub graceful_stop_process-expected :
    (signal : Signal) (events : List Event)
    → graceful_stop_process signal events ≡ expected signal events
unfolding graceful_stop_process run
graceful_stop_process-expected sent [] = refl
graceful_stop_process-expected sent (exited ∷ events) = run-returned 0 events
graceful_stop_process-expected sent (timer ∷ events) = run-last 1 events
graceful_stop_process-expected finished events = run-last 0 events
graceful_stop_process-expected failed events = run-last 1 events
