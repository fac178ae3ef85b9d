-- ===== src/Avorion/Supervisor/Pipes.antt =====
-- What the pipes of chat and log hold after handlers have sent to them (`SendChat` and `SendLog` of
-- avorion/server.go).
use avorioncontrol.Prelude.{
  ℕ, zero, suc, ◌≤◌, ◌≡◌, ◌≢◌, refl, sym, ap, ◌∙◌, false, none, some, List, [], ◌∷◌, ◌++◌, length,
  take, get_elem?, set, ltb, arith, Bool-cases, inl, inr, append-nil, append_assoc, length-append,
  subst, bind, if◌then◌else◌, get_elem?-set_self, get_elem?-set_ne, lt_of_get_elem?,
}
use avorioncontrol.Configuration.Data.{Conf, Pipe, ChatData}
use avorioncontrol.Avorion.Supervisor.{
  Effect, chat, log, command, shorten, push, push_at, send_chat, send_log_data, deliver,
}

-- The texts of the chat, and those of the log, each as it is cut.
abbrev pub cut_text : ChatData → ChatData
cut_text m = record m { msg = shorten m.msg }

abbrev pub chats : List Effect → List ChatData
chats [] = []
chats (chat m ∷ rest) = cut_text m ∷ chats rest
chats (log m ∷ rest) = chats rest
chats (command text ∷ rest) = chats rest

abbrev pub logs : List Effect → List ChatData
logs [] = []
logs (chat m ∷ rest) = logs rest
logs (log m ∷ rest) = cut_text m ∷ logs rest
logs (command text ∷ rest) = logs rest

-- The pipe with as many more messages as it has room for.
abbrev pub filled : Pipe → List ChatData → Pipe
filled p ms = record p { buffer = take 100 (p.buffer ++ ms) }

take_all : {A : Type 0} → (n : ℕ) (xs : List A) → length xs ≤ n → take n xs ≡ xs
take_all zero [] h = refl
take_all zero (x ∷ xs) h = absurd (omega (arith, h))
take_all (suc n) [] h = refl
take_all (suc n) (x ∷ xs) h = ap (λ ys. x ∷ ys) (take_all n xs (omega (arith, h)))

take-append :
    {A : Type 0} → (n : ℕ) (xs ys : List A) → n ≤ length xs → take n (xs ++ ys) ≡ take n xs
take-append zero xs ys h = refl
take-append (suc n) [] ys h = absurd (omega (arith, h))
take-append (suc n) (x ∷ xs) ys h = ap (λ zs. x ∷ zs) (take-append n xs ys (omega (arith, h)))

take_again : {A : Type 0} → (n : ℕ) (xs ys : List A) → take n (take n xs ++ ys) ≡ take n (xs ++ ys)
take_again zero xs ys = refl
take_again (suc n) [] ys = refl
take_again (suc n) (x ∷ xs) ys = ap (λ zs. x ∷ zs) (take_again n xs ys)

length-take : {A : Type 0} → (n : ℕ) (xs : List A) → length (take n xs) ≤ n
length-take zero xs = omega arith
length-take (suc n) [] = omega arith
length-take (suc n) (x ∷ xs) = omega (arith, length-take n xs)

-- A pipe that is listened on: at its place, open, and not over its capacity.
abbrev pub IsAt : List Pipe → ℕ → Pipe → Type 0
IsAt pipes i p = (get_elem? pipes i ≡ some p) × (p.closed ≡ false) × (length p.buffer ≤ 100)

push-filled :
    (m : ChatData) (p : Pipe)
    → p.closed ≡ false
    → length p.buffer ≤ 100
    → push m p ≡ some (filled p (m ∷ []))
unfolding push
push-filled m p opened within =
    let longer = record p { buffer = p.buffer ++ m ∷ [] } in
    ap (λ b. if b then none else if ltb (length p.buffer) 100 then some longer else some p) opened
    ∙ elim (Bool-cases (ltb (length p.buffer) 100)) [
      | inl room ↦
          let short : length (p.buffer ++ m ∷ []) ≤ 100 =
            ground (arith, room, length-append p.buffer (m ∷ [])) in
          ap (λ b. if b then some longer else some p) room
          ∙ ap (λ b. some (record p { buffer = b })) (sym (take_all 100 (p.buffer ++ m ∷ []) short))
      | inr full ↦
          let over : 100 ≤ length p.buffer = ground (arith, full) in
          ap (λ b. if b then some longer else some p) full
          ∙ ap (λ b. some (record p { buffer = b }))
              (sym (take-append 100 p.buffer (m ∷ []) over ∙ take_all 100 p.buffer within))
    ]

-- A message is put into the pipe at its place, and another pipe stays.
push_at-filled :
    (m : ChatData) (pipes : List Pipe) (i : ℕ) (p : Pipe)
    → IsAt pipes i p
    → (pipes' : List Pipe) × (push_at pipes (some i) m ≡ some pipes')
      × IsAt pipes' i (filled p (m ∷ []))
      × ((j : ℕ) (q : Pipe) → i ≢ j → IsAt pipes j q → IsAt pipes' j q)
unfolding push_at
push_at-filled m pipes i p (found, opened, within) = (
  set pipes i (filled p (m ∷ [])),
  rw (found, push-filled m p opened within) refl,
  (
    get_elem?-set_self pipes i (filled p (m ∷ [])) (lt_of_get_elem? pipes i found),
    opened,
    length-take 100 (p.buffer ++ m ∷ []),
  ),
  λ j q apart (there, open', room).
      (get_elem?-set_ne pipes i j (filled p (m ∷ [])) apart ∙ there, open', room),
)

send_chat-filled :
    (m : ChatData) (c : Conf) (i : ℕ) {pipes : List Pipe}
    → c.chatpipe ≡ some i
    → push_at c.pipes (some i) (cut_text m) ≡ some pipes
    → send_chat m c ≡ some (record c { pipes = pipes })
unfolding send_chat
send_chat-filled m c i at pushed =
    ap (λ o. bind o (λ pipes. some (record c { pipes = pipes })))
      (ap (λ o. push_at c.pipes o (cut_text m)) at ∙ pushed)

send_log_data-filled :
    (m : ChatData) (c : Conf) (i : ℕ) {pipes : List Pipe}
    → c.logpipe ≡ some i
    → push_at c.pipes (some i) (cut_text m) ≡ some pipes
    → send_log_data m c ≡ some (record c { pipes = pipes })
unfolding send_log_data
send_log_data-filled m c i at pushed =
    ap (λ o. bind o (λ pipes. some (record c { pipes = pipes })))
      (ap (λ o. push_at c.pipes o (cut_text m)) at ∙ pushed)

filled-filled :
    (p : Pipe) (m : ChatData) (ms : List ChatData)
    → filled (filled p (m ∷ [])) ms ≡ filled p (m ∷ ms)
filled-filled p m ms =
    ap (λ b. record p { buffer = b })
      (take_again 100 (p.buffer ++ m ∷ []) ms ∙ ap (take 100) (append_assoc p.buffer (m ∷ []) ms))

filled_nothing : (p : Pipe) → length p.buffer ≤ 100 → filled p [] ≡ p
filled_nothing p within =
    ap (λ b. record p { buffer = b })
      (ap (take 100) (append-nil p.buffer) ∙ take_all 100 p.buffer within)

-- While the bot reads nothing, what handlers send fills the two pipes: the chat messages go behind those in
-- the chat pipe, the log messages behind those in the log pipe, each in its order and with its text
-- cut, until a pipe holds 100; the messages beyond are dropped, and no pipe is closed. The two pipes are
-- distinct and open, and hold at most 100 messages before.
pub deliver_fills_pipes :
    (sent : List Effect) (c : Conf) (i j : ℕ) (p q : Pipe)
    → c.chatpipe ≡ some i
    → c.logpipe ≡ some j
    → i ≢ j
    → IsAt c.pipes i p
    → IsAt c.pipes j q
    → (c' : Conf) × (deliver sent c ≡ some c')
      × IsAt c'.pipes i (filled p (chats sent))
      × IsAt c'.pipes j (filled q (logs sent))
unfolding deliver
deliver_fills_pipes [] c i j p q at_chat at_log apart (there, opened, within)
      (there', opened', within') =
    (
      c,
      refl,
      (there ∙ ap some (sym (filled_nothing p within)), opened, length-take 100 (p.buffer ++ [])),
      (
        there' ∙ ap some (sym (filled_nothing q within')),
        opened',
        length-take 100 (q.buffer ++ []),
      ),
    )
deliver_fills_pipes (chat m ∷ rest) c i j p q at_chat at_log apart in_chat in_log =
    let (pipes, pushed, here, others) = push_at-filled (cut_text m) c.pipes i p in_chat in
    let (c', delivered, chat', log') =
      deliver_fills_pipes rest (record c { pipes = pipes }) i j (filled p (cut_text m ∷ [])) q
        at_chat at_log apart here (others j q apart in_log) in
    (
      c',
      ap (λ o. bind o (λ c. deliver rest c)) (send_chat-filled m c i at_chat pushed) ∙ delivered,
      subst (IsAt c'.pipes i) (filled-filled p (cut_text m) (chats rest)) chat',
      log',
    )
deliver_fills_pipes (log m ∷ rest) c i j p q at_chat at_log apart in_chat in_log =
    let (pipes, pushed, here, others) = push_at-filled (cut_text m) c.pipes j q in_log in
    let (c', delivered, chat', log') =
      deliver_fills_pipes rest (record c { pipes = pipes }) i j p (filled q (cut_text m ∷ []))
        at_chat at_log apart (others i p (λ e. apart (sym e)) in_chat) here in
    (
      c',
      ap (λ o. bind o (λ c. deliver rest c)) (send_log_data-filled m c j at_log pushed) ∙ delivered,
      chat',
      subst (IsAt c'.pipes j) (filled-filled q (cut_text m) (logs rest)) log',
    )
deliver_fills_pipes (command text ∷ rest) c i j p q at_chat at_log apart in_chat in_log =
    deliver_fills_pipes rest c i j p q at_chat at_log apart in_chat in_log
