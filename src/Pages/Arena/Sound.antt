-- ===== src/Pages/Arena/Sound.antt =====
-- What each handler of the arena page keeps.
use avax_build_games.Prelude.{
  ℕ, zero, suc, Bool, true, false, ◌||◌, ◌≡◌, refl, sym, ap, ◌∙◌, Option, some, List, [], ◌∷◌, any,
  Bool-cases, Option-cases, inl, inr, arith,
}
use mathlib.Core.Option.{some-injective}
use avax_build_games.Web.Text.{Text, codes, ◌===◌}
use avax_build_games.Web.Http.{Attempt, returned, thrown}
use avax_build_games.Pages.Arena.{
  Settled, fulfilled, rejected, Phase, Arena, Me, Event, queue_status, found, decided, match_update,
  other_event, Waiting, fetching_games, fetching_me, fetching_history, logging_in, joining, leaving,
  reporting, Answers, first_ruleset, refresh_games, boot_on, refresh_me, refresh_history, phase_of,
  on_event, after_login, after_join, after_leave, after_report, go_on, take_waiting, await_answer,
  updated,
}

abbrev pub is_result : Phase → Bool
is_result Phase.loading = false
is_result Phase.logged_out = false
is_result Phase.idle = false
is_result Phase.queued = false
is_result Phase.match_found = false
is_result Phase.reported = false
is_result Phase.result = true
is_result Phase.disputed = false

abbrev pub is_loading : Phase → Bool
is_loading Phase.loading = true
is_loading Phase.logged_out = false
is_loading Phase.idle = false
is_loading Phase.queued = false
is_loading Phase.match_found = false
is_loading Phase.reported = false
is_loading Phase.result = false
is_loading Phase.disputed = false

-- The handlers that free the page when they end.
abbrev pub frees : Waiting → Bool
frees (fetching_games selected) = false
frees (fetching_me connecting) = connecting
frees (fetching_history connecting) = connecting
frees logging_in = true
frees joining = true
frees leaving = true
frees reporting = true

-- The handlers that wait for fetchMe.
abbrev pub asks_me : Waiting → Bool
asks_me (fetching_games selected) = false
asks_me (fetching_me connecting) = true
asks_me (fetching_history connecting) = false
asks_me logging_in = false
asks_me joining = false
asks_me leaving = false
asks_me reporting = false

-- The handlers of the start of the page.
abbrev pub starts_up : Waiting → Bool
starts_up (fetching_games selected) = true
starts_up (fetching_me connecting) = true
starts_up (fetching_history connecting) = false
starts_up logging_in = false
starts_up joining = false
starts_up leaving = false
starts_up reporting = false

-- Where the page is busy, shows the phase of the result or is still loading, a handler waits that will
-- end this; and the page never says that the server is offline.
pub record IsSound (st : Arena) : Type 0 where
  pub busy : st.busy ≡ true → any frees st.waiting ≡ true
  pub result : is_result st.phase ≡ true → any asks_me st.waiting ≡ true
  pub loading : is_loading st.phase ≡ true → any starts_up st.waiting ≡ true
  pub online : st.offline ≡ false

-- The state while `w` still waits.
abbrev pub waits : Waiting → Arena → Arena
waits w st = record st { waiting = w ∷ st.waiting }

any-take_waiting :
    (p : Waiting → Bool) (i : ℕ) (ws : List Waiting) (w : Waiting) (rest : List Waiting)
    → take_waiting i ws ≡ some (w, rest)
    → any p ws ≡ (p w || any p rest)
any-take_waiting p i [] w rest h = cc h
any-take_waiting p zero (v ∷ ws) w rest h =
    ap (λ (x : Waiting × List Waiting). p x.0 || any p x.1) (some-injective (v, ws) (w, rest) h)
any-take_waiting p (suc i) (v ∷ ws) w rest h = elim (Option-cases (take_waiting i ws)) [
  | inl e ↦ cc (rw e at h)
  | inr ((u, others), e) ↦
      let split = any-take_waiting p i ws u others e in
      let same = some-injective (u, v ∷ others) (w, rest) (rw e at h) in
      ap (λ b. p v || b) split
      ∙ ground arith
      ∙ ap (λ (x : Waiting × List Waiting). p x.0 || any p x.1) same
]

-- A handler that is about to go on is taken from those that wait.
pub taken-IsSound :
    (i : ℕ) (st : Arena) (w : Waiting) (rest : List Waiting)
    → take_waiting i st.waiting ≡ some (w, rest)
    → IsSound st
    → IsSound (waits w (record st { waiting = rest }))
taken-IsSound i st w rest e h = record {
  busy = λ b. sym (any-take_waiting frees i st.waiting w rest e) ∙ h.busy b;
  result = λ b. sym (any-take_waiting asks_me i st.waiting w rest e) ∙ h.result b;
  loading = λ b. sym (any-take_waiting starts_up i st.waiting w rest e) ∙ h.loading b;
  online = h.online;
}

-- One handler more that waits.
pub await_answer-IsSound : (w : Waiting) (st : Arena) → IsSound st → IsSound (await_answer w st)
await_answer-IsSound w st h = record {
  busy = λ b. more (frees w) (h.busy b);
  result = λ b. more (asks_me w) (h.result b);
  loading = λ b. more (starts_up w) (h.loading b);
  online = h.online;
}
  where
    more : {x : Bool} (y : Bool) → x ≡ true → (y || x) ≡ true
    more true e = refl
    more false e = e

phase_of-plain : (me : Me) → (is_result (phase_of me) ≡ false) × (is_loading (phase_of me) ≡ false)
phase_of-plain me = elim (Bool-cases me.queue_ticket) [
  | inl e ↦ rw e (refl, refl)
  | inr e ↦ elim (Bool-cases me.live_match) [
    | inl e' ↦ rw (e, e') (refl, refl)
    | inr e' ↦ rw (e, e') (refl, refl)
  ]
]

selected-IsSound :
    (game : Option (Text × Text)) (st : Arena)
    → IsSound st
    → IsSound (record st { selected = game })
selected-IsSound game st h = record {
  busy = h.busy;
  result = h.result;
  loading = h.loading;
  online = h.online;
}

-- refreshGames fulfils its promise, whatever fetchGames gives.
refresh_games-fulfilled :
    (selected : Bool) (games : Attempt (List (Text × List Text))) (w : Waiting) (st : Arena)
    → IsSound (waits w st)
    → ((refresh_games selected games st).0 ≡ fulfilled)
      × IsSound (waits w (refresh_games selected games st).1)
unfolding refresh_games
refresh_games-fulfilled selected (thrown e) w st h = (refl, h)
refresh_games-fulfilled selected (returned games) w st h =
    elim (Option-cases (first_ruleset games)) [
      | inl e ↦ rw (e, refresh_games) (refl, h)
      | inr (first, e) ↦ elim (Bool-cases selected) [
        | inl e' ↦ rw (e, e', refresh_games) (refl, h)
        | inr e' ↦ rw (e, e', refresh_games) (refl, selected-IsSound (some first) (waits w st) h)
      ]
    ]

boot_on-IsSound :
    (selected : Bool) (done : Settled) (st : Arena)
    → done ≡ fulfilled
    → IsSound (waits (fetching_games selected) st)
    → IsSound (boot_on (done, st))
unfolding boot_on
boot_on-IsSound selected (rejected e) st d h = cc d
boot_on-IsSound selected fulfilled st d h = elim (Bool-cases st.stored) [
  | inl e ↦
      rw e (record { busy = h.busy; result = λ b. refl; loading = λ b. refl; online = h.online })
  | inr e ↦
      rw e (record { busy = h.busy; result = λ b. cc b; loading = λ b. cc b; online = h.online })
]

refresh_me-IsSound :
    (connecting : Bool) (me : Attempt Me) (st : Arena)
    → IsSound (waits (fetching_me connecting) st)
    → IsSound (refresh_me connecting me st)
unfolding refresh_me
refresh_me-IsSound true (thrown e) st h = record {
  busy = λ b. cc b;
  result = λ b. cc b;
  loading = λ b. cc b;
  online = h.online;
}
refresh_me-IsSound false (thrown e) st h = record {
  busy = h.busy;
  result = λ b. cc b;
  loading = λ b. cc b;
  online = h.online;
}
refresh_me-IsSound connecting (returned me) st h =
    let plain = phase_of-plain me in
    record {
      busy = h.busy;
      result = λ b. cc (sym plain.0 ∙ b);
      loading = λ b. cc (sym plain.1 ∙ b);
      online = h.online;
    }

refresh_history-IsSound :
    (connecting : Bool) (done : Settled) (st : Arena)
    → IsSound (waits (fetching_history connecting) st)
    → IsSound (refresh_history connecting done st)
unfolding refresh_history
refresh_history-IsSound true (rejected e) st h = record {
  busy = λ b. cc b;
  result = λ b. cc b;
  loading = λ b. cc b;
  online = h.online;
}
refresh_history-IsSound false (rejected e) st h = record {
  busy = h.busy;
  result = λ b. cc b;
  loading = λ b. cc b;
  online = h.online;
}
refresh_history-IsSound true fulfilled st h = record {
  busy = λ b. cc b;
  result = h.result;
  loading = h.loading;
  online = h.online;
}
refresh_history-IsSound false fulfilled st h = record {
  busy = h.busy;
  result = h.result;
  loading = h.loading;
  online = h.online;
}

after_login-IsSound :
    (wallet : Attempt Text) (st : Arena)
    → IsSound (waits logging_in st)
    → IsSound (after_login wallet st)
unfolding after_login
after_login-IsSound (thrown e) st h = record {
  busy = λ b. cc b;
  result = h.result;
  loading = h.loading;
  online = h.online;
}
after_login-IsSound (returned wallet) st h = record {
  busy = λ b. refl;
  result = λ b. refl;
  loading = λ b. refl;
  online = h.online;
}

after_join-IsSound :
    (done : Settled) (st : Arena) → IsSound (waits joining st) → IsSound (after_join done st)
unfolding after_join
after_join-IsSound (rejected e) st h = record {
  busy = λ b. cc b;
  result = h.result;
  loading = h.loading;
  online = h.online;
}
after_join-IsSound fulfilled st h = record {
  busy = λ b. cc b;
  result = λ b. cc b;
  loading = λ b. cc b;
  online = h.online;
}

after_leave-IsSound :
    (done : Settled) (st : Arena) → IsSound (waits leaving st) → IsSound (after_leave done st)
unfolding after_leave
after_leave-IsSound (rejected e) st h = record {
  busy = λ b. cc b;
  result = h.result;
  loading = h.loading;
  online = h.online;
}
after_leave-IsSound fulfilled st h = record {
  busy = λ b. cc b;
  result = λ b. cc b;
  loading = λ b. cc b;
  online = h.online;
}

after_report-IsSound :
    (done : Settled) (st : Arena) → IsSound (waits reporting st) → IsSound (after_report done st)
unfolding after_report
after_report-IsSound (rejected e) st h = record {
  busy = λ b. cc b;
  result = h.result;
  loading = h.loading;
  online = h.online;
}
after_report-IsSound fulfilled st h = record {
  busy = λ b. cc b;
  result = λ b. cc b;
  loading = λ b. cc b;
  online = h.online;
}

-- A handler that has waited goes on.
pub go_on-IsSound :
    (w : Waiting) (ans : Answers) (st : Arena) → IsSound (waits w st) → IsSound (go_on w ans st)
unfolding go_on
go_on-IsSound (fetching_games selected) ans st h =
    let (done, sound) = refresh_games-fulfilled selected ans.games (fetching_games selected) st h in
    boot_on-IsSound selected (refresh_games selected ans.games st).0
      (refresh_games selected ans.games st).1 done sound
go_on-IsSound (fetching_me connecting) ans st h = refresh_me-IsSound connecting ans.me st h
go_on-IsSound (fetching_history connecting) ans st h =
    refresh_history-IsSound connecting ans.done st h
go_on-IsSound logging_in ans st h = after_login-IsSound ans.wallet st h
go_on-IsSound joining ans st h = after_join-IsSound ans.done st h
go_on-IsSound leaving ans st h = after_leave-IsSound ans.done st h
go_on-IsSound reporting ans st h = after_report-IsSound ans.done st h

updated-IsSound : (state : Text) (st : Arena) → IsSound st → IsSound (updated state st)
updated-IsSound state st h = elim (Bool-cases (state === codes "disputed")) [
  | inl e ↦ elim (Bool-cases (state === codes "cancelled")) [
    | inl e' ↦
        rw (e, e')
          (record { busy = h.busy; result = λ b. cc b; loading = λ b. cc b; online = h.online })
    | inr e' ↦
        rw (e, e')
          (record { busy = h.busy; result = λ b. cc b; loading = λ b. cc b; online = h.online })
  ]
  | inr e ↦ elim (Bool-cases (state === codes "cancelled")) [
    | inl e' ↦
        rw (e, e')
          (record { busy = h.busy; result = λ b. cc b; loading = λ b. cc b; online = h.online })
    | inr e' ↦ rw (e, e') h
  ]
]

pub on_event-IsSound : (event : Event) (st : Arena) → IsSound st → IsSound (on_event event st)
unfolding on_event
on_event-IsSound (queue_status depth waited window) st h = record {
  busy = h.busy;
  result = h.result;
  loading = h.loading;
  online = h.online;
}
on_event-IsSound (found match_id) st h = record {
  busy = h.busy;
  result = λ b. cc b;
  loading = λ b. cc b;
  online = h.online;
}
on_event-IsSound (decided view) st h = record {
  busy = h.busy;
  result = λ b. refl;
  loading = λ b. refl;
  online = h.online;
}
on_event-IsSound (match_update state) st h = updated-IsSound state st h
on_event-IsSound other_event st h = h
