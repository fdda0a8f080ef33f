-- ===== src/Sandbox/Waiting.antt =====
-- How the runner waits for nsjail (`waitOrKill` in internal/converter/nsjail.go). What happens is a list
-- of events in the order in which the `select` statements take them; the list ends where the run is
-- still waiting.
use filemagic_backend.Prelude.{
  ◌≡◌, refl, Bool, true, false, List, [], ◌∷◌, Option, none, some, Text,
}

-- The process exits, with an error or none; the context expires; five seconds of grace are over.
pub data WaitEvent : Type 0 where
  exited : Option Text → WaitEvent
  ctx_done : WaitEvent
  grace_over : WaitEvent

-- Which `select` or receive the code stands at.
pub data Phase : Type 0 where
  waiting in_grace killing : Phase

pub record Waited : Type 0 where
  pub error : Option Text
  pub sent_kill : Bool

abbrev has_killed : Phase → Bool
has_killed killing = true
has_killed _ = false

unfoldable pub next_phase : Phase → WaitEvent → Phase
next_phase waiting ctx_done = in_grace
next_phase in_grace grace_over = killing
next_phase p _ = p

unfoldable pub wait_or_kill : Phase → List WaitEvent → Option Waited
wait_or_kill p [] = none
wait_or_kill p (exited error ∷ es) = some (record { error = error; sent_kill = has_killed p })
wait_or_kill p (ctx_done ∷ es) = wait_or_kill (next_phase p ctx_done) es
wait_or_kill p (grace_over ∷ es) = wait_or_kill (next_phase p grace_over) es

unfoldable pub first_exit : List WaitEvent → Option (Option Text)
first_exit [] = none
first_exit (exited error ∷ es) = some error
first_exit (ctx_done ∷ es) = first_exit es
first_exit (grace_over ∷ es) = first_exit es

-- The grace ends before the first exit.
unfoldable pub outlasts_grace : List WaitEvent → Bool
outlasts_grace [] = false
outlasts_grace (exited error ∷ es) = false
outlasts_grace (ctx_done ∷ es) = outlasts_grace es
outlasts_grace (grace_over ∷ es) = true

-- The context expires, and the grace ends after that, before the first exit.
unfoldable pub overruns : List WaitEvent → Bool
overruns [] = false
overruns (exited error ∷ es) = false
overruns (ctx_done ∷ es) = outlasts_grace es
overruns (grace_over ∷ es) = overruns es

abbrev will_kill : Phase → List WaitEvent → Bool
will_kill waiting es = overruns es
will_kill in_grace es = outlasts_grace es
will_kill killing es = true

abbrev verdict : Option (Option Text) → Bool → Option Waited
verdict none kill = none
verdict (some error) kill = some (record { error = error; sent_kill = kill })

wait_or_kill_from :
    (p : Phase) (es : List WaitEvent) → wait_or_kill p es ≡ verdict (first_exit es) (will_kill p es)
unfolding wait_or_kill next_phase first_exit outlasts_grace overruns
wait_or_kill_from waiting [] = refl
wait_or_kill_from in_grace [] = refl
wait_or_kill_from killing [] = refl
wait_or_kill_from waiting (exited error ∷ es) = refl
wait_or_kill_from in_grace (exited error ∷ es) = refl
wait_or_kill_from killing (exited error ∷ es) = refl
wait_or_kill_from waiting (ctx_done ∷ es) = wait_or_kill_from in_grace es
wait_or_kill_from in_grace (ctx_done ∷ es) = wait_or_kill_from in_grace es
wait_or_kill_from killing (ctx_done ∷ es) = wait_or_kill_from killing es
wait_or_kill_from waiting (grace_over ∷ es) = wait_or_kill_from waiting es
wait_or_kill_from in_grace (grace_over ∷ es) = wait_or_kill_from killing es
wait_or_kill_from killing (grace_over ∷ es) = wait_or_kill_from killing es

-- The wait ends exactly when the process exits, with the error of this exit, and a second kill has been
-- sent exactly if the context had expired and the grace after that was over.
pub wait_or_kill_lem :
    (es : List WaitEvent) → wait_or_kill waiting es ≡ verdict (first_exit es) (overruns es)
wait_or_kill_lem es = wait_or_kill_from waiting es
