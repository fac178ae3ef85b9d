-- ===== src/Avorion/Lifecycle/Tests.antt =====
-- A start, a stop and a restart of the galaxy "galaxy".
use avorioncontrol.Prelude.{◌≡◌, refl, inr, true, false, ◌||◌, ◌&&◌, none, some, [], pos, arith}
use avorioncontrol.Avorion.Server.{Server, is_up, status_int, crashed}
use avorioncontrol.Avorion.Lifecycle.{
  set_starting, set_stopping, set_restarting, reset, set_up, fill, run_cmd, come_up, Select,
  Attempt, Ending, start, stop, restart, select_start, after_pipe, after_set_up, try_start,
  try_stop, select_stop, exit_process, wait_cmd,
}
use avorioncontrol.Avorion.Lifecycle.Laws.{IsDataOnly, ended_badly, stop_exactly, restart_is_online}
use avorioncontrol.Avorion.Lifecycle.Steps.{new_server}

abbrev keep : Server → Server
keep s = s

keep-IsDataOnly : IsDataOnly keep
keep-IsDataOnly s = (refl, refl)

abbrev attempt : Attempt
attempt = record {
  galaxy = "galaxy";
  setup = record { mods_written = true; opened = none; init_answer = inr [] };
  piped = none;
  started = true;
  outcome = Select.ready 30;
}

abbrev running : Server
unfolding new_server
running = record (new_server 0) {
  state = record {
    isrestarting = false;
    isstopping = false;
    isstarting = false;
    iscrashed = false;
    last = 30;
  };
  cmd = some (record { process = true; process_state = none });
}

stop_exactly_example :
    (is_up (stop (Ending.killed (pos 0)) running).1.cmd ≡ false)
    × ((stop (Ending.killed (pos 0)) running).1.state.isstopping ≡ false)
    × ((stop (Ending.killed (pos 0)) running).1.state.iscrashed
        ≡ ((is_up running.cmd && ended_badly (Ending.killed (pos 0))) || running.state.iscrashed))
stop_exactly_example = stop_exactly (Ending.killed (pos 0)) running

restart_is_online_example :
    status_int (restart keep 41 (Ending.killed (pos 0)) attempt running).1 ≡ 1
unfolding restart start set_starting try_start is_up new_server after_set_up set_up after_pipe
    select_start come_up run_cmd fill reset set_restarting stop set_stopping try_stop select_stop
    exit_process wait_cmd crashed
restart_is_online_example =
    restart_is_online keep 41 (Ending.killed (pos 0)) attempt running keep-IsDataOnly refl
      (omega arith) refl refl refl
