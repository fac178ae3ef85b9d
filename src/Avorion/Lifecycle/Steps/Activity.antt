-- ===== src/Avorion/Lifecycle/Steps/Activity.antt =====
-- The server as its users see it, in four activities: what the interleaved steps refine while every
-- process that has ended closes its channel before the next is launched.
use avorioncontrol.Prelude.{
  ℕ, ◌+◌, ◌≡◌, ◌≢◌, refl, sym, ◌∙◌, Bool-cases, Bool, true, false, ◌⊎◌, inl, inr, arith,
  if◌then◌else◌, ap,
}
use avorioncontrol.Avorion.Server.{is_up, status_int, crashed, recovered}
use avorioncontrol.Avorion.Lifecycle.{
  set_starting, set_stopping, set_restarting, reset, fill, run_cmd, come_up,
}
use avorioncontrol.Avorion.Lifecycle.Steps.{Holder, World, settle, Step, Reach, Prompt, boot}
use avorioncontrol.Avorion.Lifecycle.Steps.Holder.{
  nobody, start_locked, start_waits, stop_locked, stop_waits, stop_kills,
}
use avorioncontrol.Avorion.Lifecycle.Steps.Channel.{opened, closed}
use avorioncontrol.Avorion.Lifecycle.Steps.Step.{
  lock_start, refuse_start, fail_setup, fail_pipe, launch, answer_ready, answer_closed, answer_late,
  lock_stop, find_down, ask_stop, kill, end_stop, process_ends, tell_crash, close_channel,
  mark_restart, unmark_restart, notice_exit, settle_restart, fail_restart, hang_timer,
  startup_failed,
}
use avorioncontrol.Avorion.Lifecycle.Steps.Laws.{
  starts, stops, SoundAt, IsHeld, notice-Keeps, check_hang-Keeps, Reach-IsSound, boot-IsSound,
  down-end_process, Prompt-IsHeld, boot-IsHeld,
}

-- What the server does, seen from outside.
pub data Activity : Type 0 where
  offline : Activity
  online : Activity
  starting : Activity
  stopping : Activity

-- Nothing is under way.
abbrev pub IsAtRest : Activity → Type 0
IsAtRest a = (a ≡ offline) ⊎ (a ≡ online)

-- The changes of activity that the server promises: nothing comes up but by a start, a stop ends
-- offline, and neither interrupts the other.
pub data Move : Activity → Activity → Type 0 where
  go_starting : (a : Activity) → IsAtRest a → Move a starting
  leave_starting : (a : Activity) → IsAtRest a → Move starting a
  go_stopping : (a : Activity) → IsAtRest a → Move a stopping
  leave_stopping : Move stopping offline
  die : Move online offline

-- A process that is up or down while nobody holds the mutex.
abbrev pub rest : (up : Bool) → Activity
rest up = if up then online else offline

-- The activity with the holder `h`, where the process is up or down.
abbrev pub activity_at : (h : Holder) → (up : Bool) → Activity
activity_at h up = if starts h then starting else if stops h then stopping else rest up

abbrev pub activity : World → Activity
activity w = activity_at w.holder (is_up w.server.cmd)

rest-IsAtRest : (up : Bool) → IsAtRest (rest up)
rest-IsAtRest true = inr refl
rest-IsAtRest false = inl refl

-- The same activity, or one of the moves.
abbrev pub Follows : Activity → Activity → Type 0
Follows a b = (b ≡ a) ⊎ Move a b

-- The mutex is taken by a start, or by a stop, and given back by a start.
taken : (up : Bool) → Follows (rest up) starting
taken up = inr (Move.go_starting (rest up) (rest-IsAtRest up))

taken_to_stop : (up : Bool) → Follows (rest up) stopping
taken_to_stop up = inr (Move.go_stopping (rest up) (rest-IsAtRest up))

started : (up : Bool) → Follows starting (rest up)
started up = inr (Move.leave_starting (rest up) (rest-IsAtRest up))

-- The process ends.
ends : (h : Holder) (up : Bool) → Follows (activity_at h up) (activity_at h false)
ends nobody true = inr Move.die
ends nobody false = inl refl
ends start_locked up = inl refl
ends start_waits up = inl refl
ends stop_locked up = inl refl
ends stop_waits up = inl refl
ends stop_kills up = inl refl

closed_not_opened : closed ≢ opened
closed_not_opened e = cc e

down_of_closed : (w : World) → w.channel ≡ closed → IsHeld w → is_up w.server.cmd ≡ false
down_of_closed w c held = elim (Bool-cases (is_up w.server.cmd)) [
  | inl up ↦ absurd (closed_not_opened (sym c ∙ (held up).0))
  | inr down ↦ down
]

stopped :
    (h : Holder) → (h ≡ stop_waits) ⊎ (h ≡ stop_kills) → (up : Bool) → activity_at h up ≡ stopping
stopped h (inl e) up = rw e refl
stopped h (inr e) up = rw e refl

Step-follows : {w v : World} → Step w v → IsHeld w → Follows (activity w) (activity v)
unfolding set_starting set_stopping set_restarting reset fill run_cmd come_up crashed settle
    recovered
Step-follows (lock_start w h) s = rw h (taken (is_up w.server.cmd))
Step-follows (refuse_start w h up) s = rw h (started _)
Step-follows (fail_setup w galaxy h down) s = rw h (started _)
Step-follows (fail_pipe w galaxy secs h down) s = rw h (started _)
Step-follows (launch w galaxy secs ran h down) s = inl (rw h refl)
Step-follows (answer_ready w load now h keeps) s = rw h (started _)
Step-follows (answer_closed w h c) s = rw h (started _)
Step-follows (answer_late w h) s = rw h (started _)
Step-follows (lock_stop w h) s = rw h (taken_to_stop (is_up w.server.cmd))
Step-follows (find_down w h down) s = rw (h, down) (inr Move.leave_stopping)
Step-follows (ask_stop w h up) s = inl (rw h refl)
Step-follows (kill w h) s = inl (rw h refl)
Step-follows (end_stop w h c) s =
    rw (down_of_closed w c s, stopped w.holder h false) (inr Move.leave_stopping)
Step-follows (process_ends w code up) s =
    rw (down-end_process code w.server up) (ends w.holder (is_up w.server.cmd))
Step-follows (tell_crash w others e) s = inl refl
Step-follows (close_channel w others e c) s = inl refl
Step-follows (mark_restart w) s = inl refl
Step-follows (unmark_restart w others e) s = inl refl
Step-follows (notice_exit w others e) s =
    inl (ap (λ c. activity_at w.holder (is_up c)) (notice-Keeps w.server).2)
Step-follows (settle_restart w others e) s = inl refl
Step-follows (fail_restart w others e) s = inl refl
Step-follows (hang_timer w count answered made) s =
    inl (ap (λ c. activity_at w.holder (is_up c)) (check_hang-Keeps count answered w.server).2)
Step-follows (startup_failed w made) s = inl refl

-- Whatever the order of the steps that led from the new server to a state, as long as every process
-- that had ended had closed its channel before the next was launched: a further step keeps the activity
-- or makes one of its moves. Nothing comes up but by a start, a stop that ends does so with the process
-- down, and a start and a stop never interrupt each other.
pub steps_refine_activity :
    (now : ℕ) {w v : World} → Prompt (boot now) w → Step w v → Follows (activity w) (activity v)
steps_refine_activity now r st = Step-follows st (Prompt-IsHeld r (boot-IsHeld now))

-- The number of ifaces/enums.go for an activity.
abbrev pub number : Activity → ℕ
number offline = 0
number online = 1
number starting = 2
number stopping = 3

status_at :
    (w : World) (h : Holder)
    → SoundAt h w
    → w.server.state.isrestarting ≡ false
    → status_int w.server
      ≡ (if w.server.state.iscrashed then 255 else 0) + number (activity_at h (is_up w.server.cmd))
unfolding status_int
status_at w h s restarting = rw (restarting, s.0, s.1) (ground arith)

-- In every reachable state in which no restart is marked, the status is the number of the activity,
-- and 255 more on a crash.
pub status_shows_activity :
    (now : ℕ) {w : World}
    → Reach (boot now) w
    → w.server.state.isrestarting ≡ false
    → status_int w.server ≡ (if w.server.state.iscrashed then 255 else 0) + number (activity w)
status_shows_activity now {w} r restarting =
    status_at w w.holder (Reach-IsSound r (boot-IsSound now)) restarting
