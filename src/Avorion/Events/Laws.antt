-- ===== src/Avorion/Events/Laws.antt =====
-- The registry never holds a name or a regular expression twice, both lookups find the first match,
-- and what is registered later changes no earlier answer.
use avorioncontrol.Prelude.{
  ℕ, suc, ◌+◌, ◌≡◌, refl, ap, ◌∙◌, subst, sym, String, ◌==◌, Bool, false, ◌||◌, none, some, List,
  [], ◌∷◌, ◌++◌, All, All-append, pos, negsuc, ◌⊎◌, inl, inr, get_elem?, arith, Bool-cases,
  Option-cases,
}
use avorioncontrol.Avorion.Events.{
  Event, Registered, is_taken, new, add, registry, new_all, add_all, get_from_string,
  event_type_from, event_type, Handler, init_b, initialize, customs, initialize_events,
}

module _ {H : Type 0} where
  -- Two events share neither the name nor the regular expression.
  abbrev pub IsApart : Registered H → Registered H → Type 0
  IsApart e f = (((f.regex == e.regex) || (f.name == e.name)) ≡ false)

  -- Every event is apart from all those before it.
  abbrev pub AreApart : List (Registered H) → Type 0
  AreApart [] = Unit
  AreApart (e ∷ rest) = All (λ f. IsApart f e) rest × AreApart rest

  AreApart-append :
      (n re : String) (h : H) (events : List (Registered H))
      → AreApart events
      → is_taken n re events ≡ false
      → AreApart (events ++ record { name = n; regex = re; run = h } ∷ [])
  unfolding is_taken
  AreApart-append n re h [] apart free = (tt, tt)
  AreApart-append n re h (e ∷ rest) (first, apart) free = (
    All-append (λ f. IsApart f e) rest (record { name = n; regex = re; run = h } ∷ []) first
        (ground (arith, free), tt),
    AreApart-append n re h rest apart (ground (arith, free)),
  )

  new-AreApart :
      (n re : String) (h : H) (events : List (Registered H))
      → AreApart events
      → AreApart (registry events (new n re h events))
  unfolding registry new
  new-AreApart n re h events apart = elim (Bool-cases (is_taken n re events)) [
    | inl taken ↦ rw (new, taken) apart
    | inr free ↦ rw (new, free) (AreApart-append n re h events apart free)
  ]

  -- `Add` leaves the registry as it is, or does what `New` does.
  add-cases :
      (n : String) (ge : Event H) (events : List (Registered H))
      → (registry events (add n ge events) ≡ events)
        ⊎ ((re : String) × (h : H) × (registry events (add n ge events)
              ≡ registry events (new n re h events)))
  unfolding registry add
  add-cases n ge events = elim (Bool-cases (n == "")) [
    | inl unnamed ↦ inl (rw (add, unnamed) refl)
    | inr named ↦ elim (Option-cases ge.capture) [
      | inl uncaught ↦ inl (rw (add, named, uncaught) refl)
      | inr (re, captured) ↦ elim (Option-cases ge.handler) [
        | inl unhandled ↦ inl (rw (add, named, captured, unhandled) refl)
        | inr (h, handled) ↦ inr (re, h, rw (add, named, captured, handled) refl)
      ]
    ]
  ]

  add-AreApart :
      (n : String) (ge : Event H) (events : List (Registered H))
      → AreApart events
      → AreApart (registry events (add n ge events))
  add-AreApart n ge events apart = elim (add-cases n ge events) [
    | inl e ↦ subst AreApart (sym e) apart
    | inr (re, h, e) ↦ subst AreApart (sym e) (new-AreApart n re h events apart)
  ]

  new_all-AreApart :
      (list events : List (Registered H)) → AreApart events → AreApart (new_all list events)
  unfolding new_all
  new_all-AreApart [] events apart = apart
  new_all-AreApart (e ∷ rest) events apart =
      new_all-AreApart rest (registry events (new e.name e.regex e.run events))
        (new-AreApart e.name e.regex e.run events apart)

  add_all-AreApart :
      (list : List (String × Event H)) (events : List (Registered H))
      → AreApart events
      → AreApart (add_all list events)
  unfolding add_all
  add_all-AreApart [] events apart = apart
  add_all-AreApart ((n, ge) ∷ rest) events apart =
      add_all-AreApart rest (registry events (add n ge events)) (add-AreApart n ge events apart)

  module _ (matches : String → String → Bool) (line : String) where
    event_type_from-points :
        (i : ℕ) (events : List (Registered H))
        → ((get_from_string matches line events ≡ none)
            × (event_type_from matches i line events ≡ negsuc 0))
          ⊎ ((k : ℕ) × (e : Registered H) × (get_from_string matches line events ≡ some e)
              × (event_type_from matches i line events ≡ pos (i + k))
              × (get_elem? events k ≡ some e))
    unfolding get_from_string event_type_from
    event_type_from-points i [] = inl (refl, refl)
    event_type_from-points i (e ∷ rest) = elim (Bool-cases (matches e.regex line)) [
      | inl hit ↦ inr (0, e, rw hit refl, rw hit (ap pos (omega arith)), refl)
      | inr miss ↦ elim (event_type_from-points (suc i) rest) [
        | inl (nothing, typed) ↦ inl (rw miss nothing, rw miss typed)
        | inr (k, f, found, typed, there) ↦
            inr (suc k, f, rw miss found, rw miss (typed ∙ ap pos (omega arith)), there)
      ]
    ]

    -- `EventType` is -1 exactly where `GetFromString` finds nothing, and else the index of the event that
    -- `GetFromString` finds.
    pub event_type_points :
        (events : List (Registered H))
        → ((get_from_string matches line events ≡ none)
            × (event_type matches line events ≡ negsuc 0))
          ⊎ ((k : ℕ) × (e : Registered H) × (get_from_string matches line events ≡ some e)
              × (event_type matches line events ≡ pos k)
              × (get_elem? events k ≡ some e))
    unfolding event_type
    event_type_points events = elim (event_type_from-points 0 events) [
      | inl missed ↦ inl missed
      | inr (k, e, found, typed, there) ↦ inr (k, e, found, typed ∙ ap pos (omega arith), there)
    ]

    get_from_string-append :
        (events more : List (Registered H))
        → get_from_string matches line (events ++ more)
          ≡ (elim (get_from_string matches line events) [
            | some e ↦ some e
            | none ↦ get_from_string matches line more
          ])
    unfolding get_from_string
    get_from_string-append [] more = refl
    get_from_string-append (e ∷ rest) more = ground (arith, get_from_string-append rest more)

    new-keeps :
        (n re : String) (h : H) (events : List (Registered H)) {e : Registered H}
        → get_from_string matches line events ≡ some e
        → get_from_string matches line (registry events (new n re h events)) ≡ some e
    unfolding registry new
    new-keeps n re h events found = elim (Bool-cases (is_taken n re events)) [
      | inl taken ↦ rw (new, taken) found
      | inr free ↦ rw (new, free, get_from_string-append, found) refl
    ]

    add_all-keeps :
        (list : List (String × Event H)) (events : List (Registered H)) {e : Registered H}
        → get_from_string matches line events ≡ some e
        → get_from_string matches line (add_all list events) ≡ some e
    unfolding add_all
    add_all-keeps [] events found = found
    add_all-keeps ((n, ge) ∷ rest) events {e} found =
        add_all-keeps rest (registry events (add n ge events)) (elim (add-cases n ge events) [
          | inl same ↦ subst (λ known. get_from_string matches line known ≡ some e) (sym same) found
          | inr (re, h, same) ↦
              subst (λ known. get_from_string matches line known ≡ some e) (sym same)
                (new-keeps n re h events found)
        ])

-- However the events are configured, the registry that `InitializeEvents` leaves holds no name and no
-- regular expression twice.
pub initialize_events-AreApart :
    (configured : List (String × String × String)) → AreApart (initialize_events configured)
unfolding initialize_events initialize
initialize_events-AreApart configured =
    new-AreApart "EventNone" ".*" Handler.log_output (add_all (customs configured) initialize)
      (add_all-AreApart (customs configured) initialize (new_all-AreApart init_b [] tt))

-- A line that one of the nine events of `initB` matches is handled by the same event whatever is
-- configured.
pub initialize_events_keeps :
    (configured : List (String × String × String)) (matches : String → String → Bool)
    (line : String) {e : Registered Handler}
    → get_from_string matches line initialize ≡ some e
    → get_from_string matches line (initialize_events configured) ≡ some e
unfolding initialize_events
initialize_events_keeps configured matches line found =
    new-keeps matches line "EventNone" ".*" Handler.log_output
      (add_all (customs configured) initialize)
      (add_all-keeps matches line (customs configured) initialize found)
