-- ===== src/Configuration/Pipes.antt =====
-- `SetChatChannel` and `SetLogChannel` of configuration/configuration.go. They close the channel
-- that they replace; to close a closed channel panics, which is `none`. A pipe that is still open
-- and holds nothing is closed when the timer fires; one that holds a message loses that message.
pub mod Laws
use avorioncontrol.Prelude.{
  ℕ, zero, suc, String, Bool, true, false, Option, none, some, List, [], ◌∷◌, ◌++◌, length,
  get_elem?, set,
}
use avorioncontrol.Configuration.Data.{Conf, Pipe, ChatData}

-- The `select` of the two setters, at the messages that wait in the old pipe and its state.
close_at : List ChatData → Bool → Option Pipe
close_at [] closed = some (record { buffer = []; closed = true })
close_at (m ∷ rest) true = none
close_at (m ∷ rest) false = some (record { buffer = rest; closed = true })

unfoldable pub close_pipe : Pipe → Option Pipe
unfolding close_at
close_pipe p = close_at p.buffer p.closed

-- The pipe at a position of the store closed, if there is one.
unfoldable pub close_old : List Pipe → Option ℕ → Option (List Pipe)
unfolding close_pipe
close_old pipes none = some pipes
close_old pipes (some i) = elim (get_elem? pipes i) [
  | none ↦ none
  | some p ↦ elim (close_pipe p) [ none ↦ none | some q ↦ some (set pipes i q) ]
]

-- `make(chan ifaces.ChatData, 100)`
abbrev pub fresh_pipe : Pipe
fresh_pipe = record { buffer = []; closed = false }

-- `SetChatChannel`
unfoldable pub set_chat_channel : String → Conf → Option Conf
unfolding close_old
set_chat_channel id c = elim (close_old c.pipes c.chatpipe) [
  | none ↦ none
  | some pipes ↦ some (record c {
    settings = record c.settings { chatchannel = id };
    pipes = pipes ++ fresh_pipe ∷ [];
    chatpipe = some (length pipes);
  })
]

-- `SetLogChannel`
unfoldable pub set_log_channel : String → Conf → Option Conf
unfolding close_old
set_log_channel id c = elim (close_old c.pipes c.logpipe) [
  | none ↦ none
  | some pipes ↦ some (record c {
    settings = record c.settings { logchannel = id };
    pipes = pipes ++ fresh_pipe ∷ [];
    logpipe = some (length pipes);
  })
]
