-- ===== src/Avorion/Lifecycle/Laws.antt =====
-- What `Start`, `Stop` and `Restart` leave behind, when each runs to its end on its own.
use avorioncontrol.Prelude.{
  subst, ℕ, ◌-◌, ◌<◌, ◌≡◌, ◌⊎◌, inl, inr, Bool, true, false, not, ◌||◌, ◌&&◌, Option, none, some,
  List, ℤ, pos, lt→ltb, eqb_ℤ, String, arith, refl, if◌then◌else◌, Bool-cases,
}
use avorioncontrol.Avorion.Server.{Cmd, Sector, Server, is_up, status_int, crashed}
use avorioncontrol.Avorion.Lifecycle.{
  after_pipe, after_set_up, set_starting, set_stopping, set_restarting, reset, set_up, fill,
  run_cmd, wait_cmd, exit_process, come_up, Select, Attempt, select_start, try_start, start, Ending,
  select_stop, try_stop, stop, restart,
}
use avorioncontrol.Avorion.Lifecycle.Select.{ready, closed, late}
use avorioncontrol.Avorion.Lifecycle.Ending.{in_time, killed}

pub is_up-wait_cmd : (code : ℤ) (c : Option Cmd) → is_up (wait_cmd code c) ≡ false
unfolding is_up wait_cmd
is_up-wait_cmd code none = refl
is_up-wait_cmd code (some c) = ground arith

pub cmd-exit_process : (code : ℤ) (s : Server) → (exit_process code s).cmd ≡ wait_cmd code s.cmd
unfolding exit_process crashed
cmd-exit_process code s = ground arith

-- Only a code other than 0 counts as a crash.
pub crash-exit_process :
    (code : ℤ) (s : Server)
    → (exit_process code s).state.iscrashed ≡ (not (eqb_ℤ code (pos 0)) || s.state.iscrashed)
unfolding exit_process crashed
crash-exit_process code s = ground arith

pub down-exit_process : (code : ℤ) (s : Server) → is_up (exit_process code s).cmd ≡ false
down-exit_process code s = rw cmd-exit_process (is_up-wait_cmd code s.cmd)

down-select_stop : (e : Ending) (s : Server) → is_up (select_stop e s).1.cmd ≡ false
unfolding select_stop
down-select_stop (in_time code) s = down-exit_process code s
down-select_stop (killed code) s = down-exit_process code (crashed s)

down-try_stop : (e : Ending) (s : Server) → is_up (try_stop e s).1.cmd ≡ false
unfolding try_stop
down-try_stop e s = elim (Bool-cases (is_up s.cmd)) [
  | inl up ↦ rw up (down-select_stop e (record s { onlineplayercount = pos 0 }))
  | inr down ↦ rw down down
]

-- The process did not end by itself with the code 0.
abbrev pub ended_badly : Ending → Bool
ended_badly (in_time code) = not (eqb_ℤ code (pos 0))
ended_badly (killed code) = true

crash-select_stop :
    (e : Ending) (s : Server)
    → (select_stop e s).1.state.iscrashed ≡ (ended_badly e || s.state.iscrashed)
unfolding select_stop crashed
crash-select_stop (in_time code) s = crash-exit_process code s
crash-select_stop (killed code) s = rw crash-exit_process (ground arith)

crash-try_stop :
    (e : Ending) (s : Server)
    → (try_stop e s).1.state.iscrashed ≡ ((is_up s.cmd && ended_badly e) || s.state.iscrashed)
unfolding try_stop
crash-try_stop e s = elim (Bool-cases (is_up s.cmd)) [
  | inl up ↦ rw up (crash-select_stop e (record s { onlineplayercount = pos 0 }))
  | inr down ↦ rw down refl
]

-- `Stop` returns with the process down and without the flag that it has set, and the server counts
-- as crashed afterwards exactly when it did before, or when its process was up and ended with another
-- code than 0 or had to be killed.
pub stop_exactly :
    (e : Ending) (s : Server)
    → (is_up (stop e s).1.cmd ≡ false)
      × ((stop e s).1.state.isstopping ≡ false)
      × ((stop e s).1.state.iscrashed ≡ ((is_up s.cmd && ended_badly e) || s.state.iscrashed))
unfolding stop set_stopping
stop_exactly e s =
    (down-try_stop e (set_stopping true s), refl, crash-try_stop e (set_stopping true s))

-- What the work on the data at the end of `Start` leaves alone.
abbrev pub IsDataOnly : (Server → Server) → Type 0
IsDataOnly load = (s : Server) → ((load s).state ≡ s.state) × ((load s).cmd ≡ s.cmd)

-- A server whose process runs, that does not stop and is not crashed, and whose flag `isrestarting`
-- is `r`.
abbrev pub IsCalm : Bool → Server → Type 0
IsCalm r s =
    (is_up s.cmd ≡ true)
    × (s.state.isrestarting ≡ r)
    × (s.state.isstopping ≡ false)
    × (s.state.iscrashed ≡ false)

status-IsCalm : (s : Server) → IsCalm false s → s.state.isstarting ≡ false → status_int s ≡ 1
unfolding status_int
status-IsCalm s calm rested = rw (calm.1, calm.2, calm.3, rested, calm.0) refl

select_start-IsCalm :
    {r : Bool} (load : Server → Server) (o : Select) (s : Server)
    → IsDataOnly load
    → is_up s.cmd ≡ true
    → s.state.isrestarting ≡ r
    → s.state.isstopping ≡ false
    → (select_start load o s).0 ≡ none
    → IsCalm r (select_start load o s).1
unfolding select_start come_up
select_start-IsCalm load (ready now) s keeps up restarting stopping none_said =
    let kept = keeps (record s { state = record s.state { iscrashed = false } }) in
    rw (kept.0, kept.1) (up, restarting, stopping, refl)
select_start-IsCalm load (closed code) s keeps up restarting stopping none_said = ground arith
select_start-IsCalm load late s keeps up restarting stopping none_said = ground arith

module _ {r : Bool} (load : Server → Server) (a : Attempt) (keeps : IsDataOnly load)
    (started : a.started ≡ true) where
  after_pipe-IsCalm :
      (s : Server) (piped : Option String)
      → s.state.isrestarting ≡ r
      → s.state.isstopping ≡ false
      → (after_pipe load a s piped).0 ≡ none
      → IsCalm r (after_pipe load a s piped).1
  unfolding after_pipe run_cmd is_up
  after_pipe-IsCalm s (some err) restarting stopping none_said = ground arith
  after_pipe-IsCalm s none restarting stopping none_said =
      select_start-IsCalm load a.outcome (run_cmd a.started s) keeps started restarting stopping
        none_said

  after_set_up-IsCalm :
      (s : Server) (answer : String ⊎ List Sector)
      → s.state.isrestarting ≡ r
      → s.state.isstopping ≡ false
      → (after_set_up load a s answer).0 ≡ none
      → IsCalm r (after_set_up load a s answer).1
  unfolding after_set_up fill
  after_set_up-IsCalm s (inl err) restarting stopping none_said = ground arith
  after_set_up-IsCalm s (inr secs) restarting stopping none_said =
      after_pipe-IsCalm (fill secs s) a.piped restarting stopping none_said

  pub try_start-IsCalm :
      (s : Server)
      → s.state.isrestarting ≡ r
      → s.state.isstopping ≡ false
      → (try_start load a s).0 ≡ none
      → (is_up s.cmd ≡ false) × IsCalm r (try_start load a s).1
  unfolding try_start reset
  try_start-IsCalm s restarting stopping none_said = elim (Bool-cases (is_up s.cmd)) [
    | inl up ↦ ground (arith, up)
    | inr down ↦
        let went =
          subst
            (λ b.
              (if b
                then (some "Cannot start server thats already running", s)
                else after_set_up load a (reset a.galaxy s) (set_up a.setup)).0
              ≡ none)
            down none_said in
        (
          down,
          rw down
              (after_set_up-IsCalm (reset a.galaxy s) (set_up a.setup) restarting stopping went),
        )
  ]

-- When `Start` answers no error and the process could be started, then the process was down before,
-- and afterwards the server reports `ServerOnline`; before, no restart and no stop was under way, and
-- the work on the data leaves the flags and the command alone.
pub start_is_online :
    (load : Server → Server) (a : Attempt) (s : Server)
    → IsDataOnly load
    → a.started ≡ true
    → s.state.isrestarting ≡ false
    → s.state.isstopping ≡ false
    → (start load a s).0 ≡ none
    → (is_up s.cmd ≡ false) × (status_int (start load a s).1 ≡ 1)
unfolding start set_starting
start_is_online load a s keeps started restarting stopping none_said =
    let (down, calm) =
      try_start-IsCalm load a keeps started (set_starting true s) restarting stopping none_said in
    (down, status-IsCalm (set_starting false (try_start load a (set_starting true s)).1) calm refl)

restart_proceeds :
    (load : Server → Server) (now : ℕ) (e : Ending) (a : Attempt) (s : Server)
    → 10 < now - s.state.last
    → s.state.isrestarting ≡ false
    → s.state.isstarting ≡ false
    → restart load now e a s ≡ (
      (start load a (set_restarting true (stop e s).1)).0,
      set_restarting false (start load a (set_restarting true (stop e s).1)).1,
    )
unfolding restart
restart_proceeds load now e a s waited restarting starting =
    rw (lt→ltb 10 (now - s.state.last) waited, restarting, starting) refl

-- More than ten nanoseconds after the last start, and while no restart and no start is under way, a
-- `Restart` that answers no error leaves a server that reports `ServerOnline`, whether it was up or
-- down and however its process ended; the process could be started, and the work on the data leaves
-- the flags and the command alone.
pub restart_is_online :
    (load : Server → Server) (now : ℕ) (e : Ending) (a : Attempt) (s : Server)
    → IsDataOnly load
    → a.started ≡ true
    → 10 < now - s.state.last
    → s.state.isrestarting ≡ false
    → s.state.isstarting ≡ false
    → (restart load now e a s).0 ≡ none
    → status_int (restart load now e a s).1 ≡ 1
unfolding start set_starting set_restarting stop set_stopping
restart_is_online load now e a s keeps started waited restarting starting none_said =
    let runs = restart_proceeds load now e a s waited restarting starting in
    let stopped = set_restarting true (stop e s).1 in
    let (down, calm) =
      try_start-IsCalm load a keeps started (set_starting true stopped) refl refl
        (subst (λ r. r.0 ≡ none) runs none_said) in
    rw runs (
      status-IsCalm (set_restarting false (start load a stopped).1) (calm.0, refl, calm.2, calm.3)
        refl)
