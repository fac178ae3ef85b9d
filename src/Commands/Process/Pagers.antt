-- ===== src/Commands/Process/Pagers.antt =====
-- The channels of the running pagers in a `CommandRegistrar`.
use avorioncontrol.Prelude.{
  ℕ, ◌≤◌, ◌≡◌, refl, Option-cases, Bool-cases, inl, inr, ap, sym, ◌∙◌, append-nil, append_assoc,
  List, [], ◌∷◌, ◌++◌, length, length-append, arith,
}
use avorioncontrol.Commands.Output.{CommandOutput}
use avorioncontrol.Commands.Process.{
  Message, Bot, Action, Outcome, add_pager, make_room, present, is_paged,
}

-- The channels that the actions close.
abbrev pub closed : List Action → List ℕ
closed [] = []
closed (Action.close_chan c ∷ acts) = c ∷ closed acts
closed (Action.reaction c i e ∷ acts) = closed acts
closed (Action.start_pager o c ∷ acts) = closed acts
closed (Action.send_embed c o p ∷ acts) = closed acts

-- The channels of the pagers that the actions start.
abbrev pub started : List Action → List ℕ
started [] = []
started (Action.close_chan c ∷ acts) = started acts
started (Action.reaction c i e ∷ acts) = started acts
started (Action.start_pager o c ∷ acts) = c ∷ started acts
started (Action.send_embed c o p ∷ acts) = started acts

closed-append : (a b : List Action) → closed (a ++ b) ≡ closed a ++ closed b
closed-append [] b = refl
closed-append (Action.close_chan c ∷ acts) b = ap (λ cs. c ∷ cs) (closed-append acts b)
closed-append (Action.reaction c i e ∷ acts) b = closed-append acts b
closed-append (Action.start_pager o c ∷ acts) b = closed-append acts b
closed-append (Action.send_embed c o p ∷ acts) b = closed-append acts b

started-append : (a b : List Action) → started (a ++ b) ≡ started a ++ started b
started-append [] b = refl
started-append (Action.close_chan c ∷ acts) b = started-append acts b
started-append (Action.reaction c i e ∷ acts) b = started-append acts b
started-append (Action.start_pager o c ∷ acts) b = ap (λ cs. c ∷ cs) (started-append acts b)
started-append (Action.send_embed c o p ∷ acts) b = started-append acts b

make_room_keeps : (embeds : List ℕ) → closed (make_room embeds).1 ++ (make_room embeds).0 ≡ embeds
unfolding make_room
make_room_keeps [] = refl
make_room_keeps (oldest ∷ others) = ground arith

make_room_starts : (embeds : List ℕ) → started (make_room embeds).1 ≡ []
unfolding make_room
make_room_starts [] = refl
make_room_starts (oldest ∷ others) = ground arith

make_room_bounded : (embeds : List ℕ) → length embeds ≤ 5 → length (make_room embeds).0 ≤ 4
unfolding make_room
make_room_bounded [] few = ground arith
make_room_bounded (oldest ∷ others) few = ground arith

-- The channels that are closed and those that stay are those that were there and the new ones, and
-- at most five stay.
abbrev pub IsKept : List ℕ → Bot × List Action → Type 0
IsKept embeds (bot, acts) =
    (closed acts ++ bot.reg.embeds ≡ embeds ++ started acts)
    × (length embeds ≤ 5 → length bot.reg.embeds ≤ 5)

add_pager-IsKept : (bot : Bot) (out : CommandOutput) → IsKept bot.reg.embeds (add_pager bot out)
unfolding add_pager
add_pager-IsKept bot out = (
  simp (closed-append, started-append, make_room_starts, append-nil)
      (sym (
          append_assoc (closed (make_room bot.reg.embeds).1) (make_room bot.reg.embeds).0
            (bot.next_chan ∷ []))
        ∙ ap (λ l. l ++ bot.next_chan ∷ []) (make_room_keeps bot.reg.embeds)),
  λ few.
      rw (length-append (make_room bot.reg.embeds).0 (bot.next_chan ∷ []))
        (ground (arith, make_room_bounded bot.reg.embeds few)),
)

-- Presenting the result of a command loses no pager: the channels that it closes, followed by
-- those that the registry then holds, are those that it held followed by the one it starts, if any.
-- And at most five pagers run afterwards if at most five ran before.
pub present-IsKept : (m : Message) (o : Outcome) → IsKept o.bot.reg.embeds (present m o)
unfolding present
present-IsKept m o = elim (Option-cases o.error) [
  | inr (e, failed) ↦ rw failed (sym (append-nil o.bot.reg.embeds), λ few. few)
  | inl fine ↦ elim (Option-cases o.out) [
    | inl quiet ↦ rw fine (rw quiet (sym (append-nil o.bot.reg.embeds), λ few. few))
    | inr (out, shown) ↦ elim (Bool-cases (is_paged out)) [
      | inl paged ↦ rw fine (rw shown (rw paged (add_pager-IsKept o.bot out)))
      | inr single ↦ rw fine (rw shown (rw single (sym (append-nil o.bot.reg.embeds), λ few. few)))
    ]
  ]
]
