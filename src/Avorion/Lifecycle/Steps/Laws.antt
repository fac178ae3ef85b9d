-- ===== src/Avorion/Lifecycle/Steps/Laws.antt =====
-- What holds whatever the order of the steps: the flags follow the mutex. While every ended process
-- closes its channel before the next launch, a running process has an open channel, too.
use avorioncontrol.Prelude.{
  ℕ, suc, ◌∙◌, Bool-cases, ◌≡◌, refl, Bool, true, false, ℤ, inl, inr, arith, subst,
}
use avorioncontrol.Avorion.Server.{Server, is_up, crashed, recovered}
use avorioncontrol.Avorion.Lifecycle.{
  set_starting, set_stopping, set_restarting, reset, fill, run_cmd, wait_cmd, come_up,
}
use avorioncontrol.Avorion.Lifecycle.Steps.{
  Holder, World, end_process, Prompt, notice, settle, check_hang, Step, Reach, new_server, boot,
}
use avorioncontrol.Avorion.Lifecycle.Steps.Holder.{
  start_locked, start_waits, stop_locked, stop_waits, stop_kills,
}
use avorioncontrol.Avorion.Lifecycle.Steps.Channel.{opened}
use avorioncontrol.Avorion.Lifecycle.Steps.Step.{
  lock_start, refuse_start, fail_setup, fail_pipe, launch, answer_ready, answer_closed, answer_late,
  lock_stop, find_down, ask_stop, kill, end_stop, process_ends, tell_crash, close_channel,
  mark_restart, unmark_restart, notice_exit, settle_restart, fail_restart, hang_timer,
  startup_failed,
}
use avorioncontrol.Avorion.Lifecycle.Steps.Reach.{here, next}
use avorioncontrol.Avorion.Lifecycle.Steps.Prompt.{begin, further}

-- `Start` holds the mutex.
abbrev pub starts : Holder → Bool
starts start_locked = true
starts start_waits = true
starts h = false

-- `Stop` holds the mutex.
abbrev pub stops : Holder → Bool
stops stop_locked = true
stops stop_waits = true
stops stop_kills = true
stops h = false

-- With the holder `h` the flags follow the mutex.
abbrev pub SoundAt : Holder → World → Type 0
SoundAt h w = (w.server.state.isstarting ≡ starts h) × (w.server.state.isstopping ≡ stops h)

abbrev pub IsSound : World → Type 0
IsSound w = SoundAt w.holder w

IsSound-at : (w : World) {h : Holder} → w.holder ≡ h → IsSound w → SoundAt h w
IsSound-at w e s = subst (λ k. SoundAt k w) e s

-- The goroutines leave the mutex' flags and the command alone.
abbrev pub Keeps : Server → Server → Type 0
Keeps s t =
    (t.state.isstarting ≡ s.state.isstarting)
    × (t.state.isstopping ≡ s.state.isstopping)
    × (t.cmd ≡ s.cmd)

pub notice-Keeps : (s : Server) → Keeps s (notice s)
unfolding notice crashed
notice-Keeps s = ground arith

pub check_hang-Keeps :
    (count : ℤ) (answered : Bool) (s : Server) → Keeps s (check_hang count answered s)
unfolding check_hang crashed recovered
check_hang-Keeps count answered s = ground arith

pub Step-IsSound : {w v : World} → Step w v → IsSound w → IsSound v
unfolding set_starting set_stopping set_restarting reset fill run_cmd come_up crashed settle
    recovered end_process
Step-IsSound (lock_start w h) s = let k = IsSound-at w h s in (refl, k.1)
Step-IsSound (refuse_start w h up) s = let k = IsSound-at w h s in (refl, k.1)
Step-IsSound (fail_setup w galaxy h down) s = let k = IsSound-at w h s in (refl, k.1)
Step-IsSound (fail_pipe w galaxy secs h down) s = let k = IsSound-at w h s in (refl, k.1)
Step-IsSound (launch w galaxy secs started h down) s = IsSound-at w h s
Step-IsSound (answer_ready w load now h keeps) s =
    let k = IsSound-at w h s in (refl, rw (keeps (recovered w.server)).0 k.1)
Step-IsSound (answer_closed w h c) s = let k = IsSound-at w h s in (refl, k.1)
Step-IsSound (answer_late w h) s = let k = IsSound-at w h s in (refl, k.1)
Step-IsSound (lock_stop w h) s = let k = IsSound-at w h s in (k.0, refl)
Step-IsSound (find_down w h down) s = let k = IsSound-at w h s in (k.0, refl)
Step-IsSound (ask_stop w h up) s = IsSound-at w h s
Step-IsSound (kill w h) s = IsSound-at w h s
Step-IsSound (end_stop w (inl h) c) s = let k = IsSound-at w h s in (k.0, refl)
Step-IsSound (end_stop w (inr h) c) s = let k = IsSound-at w h s in (k.0, refl)
Step-IsSound (process_ends w code up) s = s
Step-IsSound (tell_crash w others e) s = s
Step-IsSound (close_channel w others e c) s = s
Step-IsSound (mark_restart w) s = s
Step-IsSound (unmark_restart w others e) s = s
Step-IsSound (notice_exit w others e) s = let k = notice-Keeps w.server in (k.0 ∙ s.0, k.1 ∙ s.1)
Step-IsSound (settle_restart w others e) s = s
Step-IsSound (fail_restart w others e) s = s
Step-IsSound (hang_timer w count answered made) s =
    let k = check_hang-Keeps count answered w.server in (k.0 ∙ s.0, k.1 ∙ s.1)
Step-IsSound (startup_failed w made) s = s

pub Reach-IsSound : {w v : World} → Reach w v → IsSound w → IsSound v
Reach-IsSound here s = s
Reach-IsSound (next r st) s = Step-IsSound st (Reach-IsSound r s)

pub boot-IsSound : (now : ℕ) → IsSound (boot now)
unfolding boot new_server
boot-IsSound now = (refl, refl)

-- A process that is up has an open channel, and no goroutine is about to close it.
abbrev pub IsHeld : World → Type 0
IsHeld w = is_up w.server.cmd ≡ true → (w.channel ≡ opened) × (w.ended ≡ 0)

pub down_of_ended :
    (w : World) (others : ℕ) → IsHeld w → w.ended ≡ suc others → is_up w.server.cmd ≡ false
down_of_ended w others held e = elim (Bool-cases (is_up w.server.cmd)) [
  | inl up ↦ absurd (omega (arith, e, (held up).1))
  | inr down ↦ down
]

pub down-end_process :
    (code : ℤ) (s : Server) → is_up s.cmd ≡ true → is_up (end_process code s).cmd ≡ false
unfolding end_process wait_cmd is_up
down-end_process code s up = ground (arith, up)

pub Step-IsHeld :
    {w v : World}
    → Step w v
    → (w.holder ≡ start_locked → v.holder ≡ start_waits → w.ended ≡ 0)
    → IsHeld w
    → IsHeld v
unfolding set_starting set_stopping set_restarting reset fill run_cmd come_up crashed settle
    recovered is_up
Step-IsHeld (lock_start w h) prompt s = s
Step-IsHeld (refuse_start w h up) prompt s = s
Step-IsHeld (fail_setup w galaxy h down) prompt s = s
Step-IsHeld (fail_pipe w galaxy secs h down) prompt s = λ up. ground (arith, up)
Step-IsHeld (launch w galaxy secs started h down) prompt s = λ up. (refl, rw up (prompt h refl))
Step-IsHeld (answer_ready w load now h keeps) prompt s =
    λ up. s (subst (λ c. is_up c ≡ true) (keeps (recovered w.server)).1 up)
Step-IsHeld (answer_closed w h c) prompt s = s
Step-IsHeld (answer_late w h) prompt s = s
Step-IsHeld (lock_stop w h) prompt s = s
Step-IsHeld (find_down w h down) prompt s = s
Step-IsHeld (ask_stop w h up) prompt s = s
Step-IsHeld (kill w h) prompt s = s
Step-IsHeld (end_stop w h c) prompt s = s
Step-IsHeld (process_ends w code was_up) prompt s =
    λ up. cc (up, down-end_process code w.server was_up)
Step-IsHeld (tell_crash w others e) prompt s = s
Step-IsHeld (close_channel w others e c) prompt s = λ up. cc (up, down_of_ended w others s e)
Step-IsHeld (mark_restart w) prompt s = s
Step-IsHeld (unmark_restart w others e) prompt s = s
Step-IsHeld (notice_exit w others e) prompt s =
    λ up. s (subst (λ c. is_up c ≡ true) (notice-Keeps w.server).2 up)
Step-IsHeld (settle_restart w others e) prompt s = s
Step-IsHeld (fail_restart w others e) prompt s = s
Step-IsHeld (hang_timer w count answered made) prompt s =
    λ up. s (subst (λ c. is_up c ≡ true) (check_hang-Keeps count answered w.server).2 up)
Step-IsHeld (startup_failed w made) prompt s = s

pub Prompt-IsHeld : {w v : World} → Prompt w v → IsHeld w → IsHeld v
Prompt-IsHeld begin s = s
Prompt-IsHeld (further r st prompt) s = Step-IsHeld st prompt (Prompt-IsHeld r s)

pub boot-IsHeld : (now : ℕ) → IsHeld (boot now)
unfolding boot new_server is_up
boot-IsHeld now = λ up. cc up
