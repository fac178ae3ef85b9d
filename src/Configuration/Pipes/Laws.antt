-- ===== src/Configuration/Pipes/Laws.antt =====
-- The pipes that the bot listens on are open, and a replaced pipe is closed, once.
use avorioncontrol.Prelude.{
  ℕ, ◌<◌, String, ◌≡◌, refl, ap, ◌∙◌, ◌≢◌, true, false, Option, none, some, List, [], ◌∷◌, ◌++◌,
  length, get_elem?, set, arith, length-set, get_elem?-set_self, get_elem?-set_ne, lt_of_get_elem?,
  get_elem?-append_left, get_elem?-append_length,
}
use avorioncontrol.Configuration.Data.{Conf, Pipe, ChatData}
use avorioncontrol.Configuration.Pipes.{
  close_at, close_pipe, close_old, fresh_pipe, set_chat_channel, set_log_channel,
}

close_at-open : (ms : List ChatData) → (q : Pipe) × (close_at ms false ≡ some q) × (q.closed ≡ true)
unfolding close_at
close_at-open [] = (record { buffer = []; closed = true }, refl, refl)
close_at-open (m ∷ rest) = (record { buffer = rest; closed = true }, refl, refl)

close_pipe-open :
    (p : Pipe) → p.closed ≡ false → (q : Pipe) × (close_pipe p ≡ some q) × (q.closed ≡ true)
unfolding close_pipe
close_pipe-open p h = rw h (close_at-open p.buffer)

-- The pipe that is listened on, if any, is there and open.
abbrev pub OpenAt : List Pipe → Option ℕ → Type 0
OpenAt pipes none = Unit
OpenAt pipes (some i) = (p : Pipe) × (get_elem? pipes i ≡ some p) × (p.closed ≡ false)

abbrev pub ClosedAt : List Pipe → Option ℕ → Type 0
ClosedAt pipes none = Unit
ClosedAt pipes (some i) = (p : Pipe) × (get_elem? pipes i ≡ some p) × (p.closed ≡ true)

-- What closing the old pipe does to the store.
record Closing (pipes pipes' : List Pipe) (old : Option ℕ) : Type 0 where
  done : close_old pipes old ≡ some pipes'
  same_length : length pipes' ≡ length pipes
  others : (j : ℕ) → old ≢ some j → get_elem? pipes' j ≡ get_elem? pipes j
  closed : ClosedAt pipes' old

close_old-Closing :
    (pipes : List Pipe) (old : Option ℕ)
    → OpenAt pipes old
    → (pipes' : List Pipe) × Closing pipes pipes' old
unfolding close_old
close_old-Closing pipes none h =
    (pipes, record { done = refl; same_length = refl; others = λ j n. refl; closed = tt })
close_old-Closing pipes (some i) (p, found, opened) =
    let (q, e, shut) = close_pipe-open p opened in
    (
      set pipes i q,
      record {
        done = ground arith;
        same_length = length-set pipes i q;
        others = λ j n. get_elem?-set_ne pipes i j q (λ (x : i ≡ j). n (ap some x));
        closed = (q, get_elem?-set_self pipes i q (lt_of_get_elem? pipes i found), shut);
      },
    )

-- The pipes of chat and log are open, and are not the same pipe.
pub record IsListening (c : Conf) : Type 0 where
  pub chat : OpenAt c.pipes c.chatpipe
  pub log : OpenAt c.pipes c.logpipe
  pub apart : (i : ℕ) → c.chatpipe ≡ some i → c.logpipe ≢ some i

-- An open pipe that is not the one closed stays open, also when the store grows.
kept :
    (pipes pipes' : List Pipe) (old other : Option ℕ)
    → Closing pipes pipes' old
    → ((i : ℕ) → old ≡ some i → other ≢ some i)
    → OpenAt pipes other
    → OpenAt (pipes' ++ fresh_pipe ∷ []) other
kept pipes pipes' old none c apart h = tt
kept pipes pipes' old (some j) c apart (p, found, opened) =
    let here : get_elem? pipes' j ≡ some p = c.others j (λ e. apart j e refl) ∙ found in
    (
      p,
      get_elem?-append_left pipes' (fresh_pipe ∷ []) j (lt_of_get_elem? pipes' j here) ∙ here,
      opened,
    )

closed_still :
    (pipes : List Pipe) (old : Option ℕ)
    → ClosedAt pipes old
    → ClosedAt (pipes ++ fresh_pipe ∷ []) old
closed_still pipes none h = tt
closed_still pipes (some i) (p, found, shut) = (
  p,
  get_elem?-append_left pipes (fresh_pipe ∷ []) i (lt_of_get_elem? pipes i found) ∙ found,
  shut,
)

-- A pipe of the store is not the one that is made next.
below_fresh :
    (pipes : List Pipe) (o : Option ℕ) (i : ℕ) → OpenAt pipes o → o ≡ some i → i < length pipes
below_fresh pipes none i h e = cc
below_fresh pipes (some j) i (p, found, opened) e = ground (arith, lt_of_get_elem? pipes j found)

-- What a setter promises: `old` and `new` are the pipe replaced and the one now listened on.
pub record IsReplaced (c c' : Conf) (old new : Option ℕ) : Type 0 where
  pub listening : IsListening c'
  pub old_closed : ClosedAt c'.pipes old
  pub new_empty : (i : ℕ) × (new ≡ some i) × (get_elem? c'.pipes i ≡ some fresh_pipe)

-- While the pipes of chat and log are open and distinct, `SetChatChannel` does not panic: it sets
-- the channel, closes the old chat pipe, listens on a new empty one, leaves the log pipe alone, and
-- the pipes are open and distinct again.
pub set_chat_channel-IsListening :
    (id : String) (c : Conf)
    → IsListening c
    → (c' : Conf) × (set_chat_channel id c ≡ some c')
      × IsReplaced c c' c.chatpipe c'.chatpipe
      × (c'.settings ≡ record c.settings { chatchannel = id })
      × (c'.logpipe ≡ c.logpipe)
unfolding set_chat_channel
set_chat_channel-IsListening id c h =
    let (pipes', k) = close_old-Closing c.pipes c.chatpipe h.chat in
    (
      record c {
        settings = record c.settings { chatchannel = id };
        pipes = pipes' ++ fresh_pipe ∷ [];
        chatpipe = some (length pipes');
      },
      ground (arith, k.done),
      record {
        listening = record {
          chat = (fresh_pipe, get_elem?-append_length pipes' fresh_pipe [], refl);
          log = kept c.pipes pipes' c.chatpipe c.logpipe k h.apart h.log;
          apart = λ i e f. ground (arith, k.same_length, below_fresh c.pipes c.logpipe i h.log f);
        };
        old_closed = closed_still pipes' c.chatpipe k.closed;
        new_empty = (length pipes', refl, get_elem?-append_length pipes' fresh_pipe []);
      },
      refl,
      refl,
    )

-- While the pipes of chat and log are open and distinct, `SetLogChannel` does not panic: it sets
-- the channel, closes the old log pipe, listens on a new empty one, leaves the chat pipe alone, and
-- the pipes are open and distinct again.
pub set_log_channel-IsListening :
    (id : String) (c : Conf)
    → IsListening c
    → (c' : Conf) × (set_log_channel id c ≡ some c')
      × IsReplaced c c' c.logpipe c'.logpipe
      × (c'.settings ≡ record c.settings { logchannel = id })
      × (c'.chatpipe ≡ c.chatpipe)
unfolding set_log_channel
set_log_channel-IsListening id c h =
    let (pipes', k) = close_old-Closing c.pipes c.logpipe h.log in
    (
      record c {
        settings = record c.settings { logchannel = id };
        pipes = pipes' ++ fresh_pipe ∷ [];
        logpipe = some (length pipes');
      },
      ground (arith, k.done),
      record {
        listening = record {
          chat = kept c.pipes pipes' c.logpipe c.chatpipe k (λ i e f. h.apart i f e) h.chat;
          log = (fresh_pipe, get_elem?-append_length pipes' fresh_pipe [], refl);
          apart = λ i e f. ground (arith, k.same_length, below_fresh c.pipes c.chatpipe i h.chat e);
        };
        old_closed = closed_still pipes' c.logpipe k.closed;
        new_empty = (length pipes', refl, get_elem?-append_length pipes' fresh_pipe []);
      },
      refl,
      refl,
    )
