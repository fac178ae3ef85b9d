-- ===== src/Avorion/Lifecycle/Steps/Tests.antt =====
-- One life of the server: it starts, comes up, is asked to stop, and its process ends.
use avorioncontrol.Prelude.{◌+◌, ◌≡◌, refl, inl, true, false, [], pos, if◌then◌else◌}
use avorioncontrol.Avorion.Server.{Server, is_up, status_int}
use avorioncontrol.Avorion.Lifecycle.{
  set_starting, set_stopping, reset, fill, run_cmd, wait_cmd, come_up,
}
use avorioncontrol.Avorion.Lifecycle.Laws.{IsDataOnly}
use avorioncontrol.Avorion.Lifecycle.Steps.{
  Holder, Channel, World, Step, Reach, Prompt, end_process, new_server, boot,
}
use avorioncontrol.Avorion.Lifecycle.Steps.Activity.{
  online, activity, number, Follows, steps_refine_activity, status_shows_activity,
}

abbrev new_world : World
new_world = boot 0

abbrev locked : World
locked = record new_world {
  server = set_starting true new_world.server;
  holder = Holder.start_locked;
}

abbrev launched : World
launched = record locked {
  server = run_cmd true (fill [] (reset "galaxy" locked.server));
  holder = Holder.start_waits;
  channel = Channel.opened;
  watched = true;
}

abbrev unchanged : Server → Server
unchanged s = s

unchanged-IsDataOnly : IsDataOnly unchanged
unchanged-IsDataOnly s = (refl, refl)

abbrev up : World
up = record launched {
  server = set_starting false (come_up unchanged 20 launched.server);
  holder = Holder.nobody;
}

abbrev asked : World
asked = record up { server = set_stopping true up.server; holder = Holder.stop_locked }

abbrev waiting : World
waiting = record asked {
  server = record asked.server { onlineplayercount = pos 0 };
  holder = Holder.stop_waits;
}

up-Reach : Reach (boot 0) up
unfolding boot is_up set_starting new_server
up-Reach =
    Reach.next
      (Reach.next (Reach.next Reach.here (Step.lock_start new_world refl))
        (Step.launch locked "galaxy" [] true refl refl))
      (Step.answer_ready launched unchanged 20 refl unchanged-IsDataOnly)

asked-Reach : Reach (boot 0) asked
asked-Reach = Reach.next up-Reach (Step.lock_stop up refl)

is_up-asked : is_up asked.server.cmd ≡ true
unfolding is_up run_cmd come_up set_stopping set_starting
is_up-asked = refl

ask : Step asked waiting
ask = Step.ask_stop asked refl is_up-asked

asked-Prompt : Prompt (boot 0) asked
unfolding boot is_up set_starting new_server
asked-Prompt =
    Prompt.further
      (Prompt.further
        (Prompt.further (Prompt.further Prompt.begin (Step.lock_start new_world refl) (λ _ _. refl))
          (Step.launch locked "galaxy" [] true refl refl) (λ _ _. refl))
        (Step.answer_ready launched unchanged 20 refl unchanged-IsDataOnly) (λ _ _. refl))
      (Step.lock_stop up refl) (λ _ _. refl)

steps_refine_activity_example : Follows (activity asked) (activity waiting)
steps_refine_activity_example = steps_refine_activity 0 asked-Prompt ask

status_shows_activity_example :
    status_int up.server ≡ (if up.server.state.iscrashed then 255 else 0) + number (activity up)
unfolding set_starting come_up run_cmd fill reset boot new_server
status_shows_activity_example = status_shows_activity 0 up-Reach refl

-- A process ends, a second one is launched and comes up before the goroutine of the first has closed the
-- channel, and that goroutine closes the channel of the second.
abbrev died : World
died = record up { server = end_process (pos 1) up.server; ended = 1 }

abbrev relocked : World
relocked = record died { server = set_starting true died.server; holder = Holder.start_locked }

abbrev relaunched : World
relaunched = record relocked {
  server = run_cmd true (fill [] (reset "galaxy" relocked.server));
  holder = Holder.start_waits;
}

abbrev again_up : World
again_up = record relaunched {
  server = set_starting false (come_up unchanged 40 relaunched.server);
  holder = Holder.nobody;
}

abbrev stopping_again : World
stopping_again = record again_up {
  server = record (set_stopping true again_up.server) { onlineplayercount = pos 0 };
  holder = Holder.stop_waits;
}

abbrev closed_late : World
closed_late = record stopping_again {
  channel = Channel.closed;
  watched = false;
  ended = 0;
  woken = 1;
}

abbrev stopped_up : World
stopped_up = record closed_late {
  server = set_stopping false closed_late.server;
  holder = Holder.nobody;
}

stopped_up-Reach : Reach (boot 0) stopped_up
unfolding boot is_up set_starting new_server end_process wait_cmd run_cmd fill reset come_up
    set_stopping
stopped_up-Reach =
    let dies = Reach.next up-Reach (Step.process_ends up (pos 1) refl) in
    let locks = Reach.next dies (Step.lock_start died refl) in
    let launches = Reach.next locks (Step.launch relocked "galaxy" [] true refl refl) in
    let answers =
      Reach.next launches (Step.answer_ready relaunched unchanged 40 refl unchanged-IsDataOnly) in
    let asks = Reach.next (Reach.next answers (Step.lock_stop again_up refl)) (
      Step.ask_stop
        (record again_up {
          server = set_stopping true again_up.server;
          holder = Holder.stop_locked;
        })
        refl refl) in
    Reach.next (Reach.next asks (Step.close_channel stopping_again 0 refl refl))
      (Step.end_stop closed_late (inl refl) refl)

-- The stop has ended, and the process is up.
stop_leaves_up : (activity stopped_up ≡ online) × (is_up stopped_up.server.cmd ≡ true)
unfolding is_up run_cmd come_up set_stopping set_starting
stop_leaves_up = (refl, refl)
