-- ===== src/Avorion/Lifecycle/Steps.antt =====
-- `Start`, `Stop`, `Restart` and the goroutines `updateAvorionStatus` and `superviseAvorionOut` as
-- steps that interleave. The mutex of `state` orders `Start` and `Stop` only; the flags are read and
-- written by all. The goroutine that waits for the process takes three steps: the process has ended, the
-- crash is marked and told, and whatever `s.close` is by then is closed. A second close of a channel is
-- a panic and no step.
pub mod Laws
pub mod Activity
pub mod Tests
use avorioncontrol.Prelude.{
  ℕ, suc, String, ◌≡◌, ◌≢◌, Bool, true, false, ◌||◌, none, List, [], ◌⊎◌, ℤ, pos, if◌then◌else◌,
}
use avorioncontrol.Avorion.Server.{Sector, Server, is_up, crashed, recovered}
use avorioncontrol.Avorion.Lifecycle.{
  set_starting, set_stopping, set_restarting, reset, fill, run_cmd, wait_cmd, come_up,
}
use avorioncontrol.Avorion.Lifecycle.Laws.{IsDataOnly}

-- Who holds the mutex, and where it is: `Start` before its launch or in its `select`, `Stop` before
-- its test, in its `select`, or after the kill.
pub data Holder : Type 0 where
  nobody : Holder
  start_locked : Holder
  start_waits : Holder
  stop_locked : Holder
  stop_waits : Holder
  stop_kills : Holder

-- The channel `s.close`.
pub data Channel : Type 0 where
  unmade : Channel
  opened : Channel
  closed : Channel

-- The server, the mutex, the channel `s.close`, whether an `updateAvorionStatus` listens to that channel,
-- and how many goroutines are between two of their steps: those whose process has ended and who have
-- not closed the channel, those who have not looked at a closed channel yet, those who restart the server
-- after that, and the calls of `Restart` that have set their mark.
pub record World : Type 0 where
  pub server : Server
  pub holder : Holder
  pub channel : Channel
  pub watched : Bool
  pub ended : ℕ
  pub woken : ℕ
  pub restoring : ℕ
  pub restarts : ℕ

-- `Cmd.Wait`, which sets the state of the process.
unfoldable pub end_process : ℤ → Server → Server
end_process code s = record s { cmd = wait_cmd code s.cmd }

-- The guard of the goroutine: nothing is under way.
unfoldable pub is_busy : Server → Bool
is_busy s = s.state.isstopping || (s.state.isrestarting || s.state.isstarting)

-- The case `<-closech` of `updateAvorionStatus`, up to its call of `Restart`.
unfoldable pub notice : Server → Server
notice s = if is_busy s then s else crashed s

-- The end of that case, after a `Restart` without an error.
unfoldable pub settle : Server → Server
settle s = set_restarting false (recovered s)

-- The check of the hang timer: the flags, and whether the command was answered.
unfoldable pub check_hang : (count : ℤ) → (answered : Bool) → Server → Server
check_hang count answered s =
    let counted = record s { onlineplayercount = count } in
    if is_busy s
    then counted
    else if answered
    then (if s.state.iscrashed then recovered counted else counted)
    else crashed counted

-- One step. The first eight are those of `Start`, the next five those of `Stop`, then come the three of
-- the goroutine that waits for the process, the two writes of `Restart`, and the other goroutines. `load`
-- is the work on the data once the server is ready. A process that does not start ends at once.
pub data Step : World → World → Type 0 where
  lock_start :
      (w : World)
      → w.holder ≡ nobody
      → Step w (record w { server = set_starting true w.server; holder = start_locked })
  refuse_start :
      (w : World)
      → w.holder ≡ start_locked
      → is_up w.server.cmd ≡ true
      → Step w (record w { server = set_starting false w.server; holder = nobody })
  fail_setup :
      (w : World) (galaxy : String)
      → w.holder ≡ start_locked
      → is_up w.server.cmd ≡ false
      → Step w (record w { server = set_starting false (reset galaxy w.server); holder = nobody })
  fail_pipe :
      (w : World) (galaxy : String) (secs : List Sector)
      → w.holder ≡ start_locked
      → is_up w.server.cmd ≡ false
      → Step w (record w {
        server = set_starting false (fill secs (reset galaxy w.server));
        holder = nobody;
      })
  launch :
      (w : World) (galaxy : String) (secs : List Sector) (started : Bool)
      → w.holder ≡ start_locked
      → is_up w.server.cmd ≡ false
      → Step w (record w {
        server = run_cmd started (fill secs (reset galaxy w.server));
        holder = start_waits;
        channel = opened;
        watched = true;
        ended = if started then w.ended else suc w.ended;
      })
  answer_ready :
      (w : World) (load : Server → Server) (now : ℕ)
      → w.holder ≡ start_waits
      → IsDataOnly load
      → Step w
          (record w { server = set_starting false (come_up load now w.server); holder = nobody })
  answer_closed :
      (w : World)
      → w.holder ≡ start_waits
      → w.channel ≡ closed
      → Step w (record w { server = set_starting false w.server; holder = nobody })
  answer_late :
      (w : World)
      → w.holder ≡ start_waits
      → Step w (record w { server = set_starting false w.server; holder = nobody })
  lock_stop :
      (w : World)
      → w.holder ≡ nobody
      → Step w (record w { server = set_stopping true w.server; holder = stop_locked })
  find_down :
      (w : World)
      → w.holder ≡ stop_locked
      → is_up w.server.cmd ≡ false
      → Step w (record w { server = set_stopping false w.server; holder = nobody })
  ask_stop :
      (w : World)
      → w.holder ≡ stop_locked
      → is_up w.server.cmd ≡ true
      → Step w
          (record w { server = record w.server { onlineplayercount = pos 0 }; holder = stop_waits })
  kill :
      (w : World)
      → w.holder ≡ stop_waits
      → Step w (record w { server = crashed w.server; holder = stop_kills })
  end_stop :
      (w : World)
      → (w.holder ≡ stop_waits) ⊎ (w.holder ≡ stop_kills)
      → w.channel ≡ closed
      → Step w (record w { server = set_stopping false w.server; holder = nobody })
  process_ends :
      (w : World) (code : ℤ)
      → is_up w.server.cmd ≡ true
      → Step w (record w { server = end_process code w.server; ended = suc w.ended })
  tell_crash :
      (w : World) (others : ℕ)
      → w.ended ≡ suc others
      → Step w (record w { server = crashed w.server })
  close_channel :
      (w : World) (others : ℕ)
      → w.ended ≡ suc others
      → w.channel ≡ opened
      → Step w (record w {
        channel = closed;
        watched = false;
        ended = others;
        woken = if w.watched then suc w.woken else w.woken;
      })
  mark_restart :
      (w : World)
      → Step w (record w { server = set_restarting true w.server; restarts = suc w.restarts })
  unmark_restart :
      (w : World) (others : ℕ)
      → w.restarts ≡ suc others
      → Step w (record w { server = set_restarting false w.server; restarts = others })
  notice_exit :
      (w : World) (others : ℕ)
      → w.woken ≡ suc others
      → Step w (record w {
        server = notice w.server;
        woken = others;
        restoring = if is_busy w.server then w.restoring else suc w.restoring;
      })
  settle_restart :
      (w : World) (others : ℕ)
      → w.restoring ≡ suc others
      → Step w (record w { server = settle w.server; restoring = others })
  fail_restart :
      (w : World) (others : ℕ) → w.restoring ≡ suc others → Step w (record w { restoring = others })
  hang_timer :
      (w : World) (count : ℤ) (answered : Bool)
      → w.channel ≢ unmade
      → Step w (record w { server = check_hang count answered w.server })
  startup_failed :
      (w : World) → w.channel ≢ unmade → Step w (record w { server = crashed w.server })

-- What a run of steps leads to.
pub data Reach (w : World) : World → Type 0 where
  here : Reach w w
  next : {u v : World} → Reach w u → Step u v → Reach w v

-- A run in which every process that has ended has closed its channel before the next is launched.
pub data Prompt (w : World) : World → Type 0 where
  begin : Prompt w w
  further :
      {u v : World}
      → Prompt w u
      → Step u v
      → (u.holder ≡ start_locked → v.holder ≡ start_waits → u.ended ≡ 0)
      → Prompt w v

-- The server of `New`: no process, and no flag set.
unfoldable pub new_server : ℕ → Server
new_server now = record {
  state = record {
    isrestarting = false;
    isstopping = false;
    isstarting = false;
    iscrashed = false;
    last = now;
  };
  cmd = none;
  name = "";
  players = [];
  alliances = [];
  sectors = [];
  onlineplayers = "";
  statusoutput = "";
  onlineplayercount = pos 0;
  playercount = pos 0;
  alliancecount = pos 0;
  sectorcount = pos 0;
  requests = [];
}

unfoldable pub boot : ℕ → World
boot now = record {
  server = new_server now;
  holder = nobody;
  channel = unmade;
  watched = false;
  ended = 0;
  woken = 0;
  restoring = 0;
  restarts = 0;
}
