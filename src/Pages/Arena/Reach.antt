-- ===== src/Pages/Arena/Reach.antt =====
-- What holds of the arena page in every order of its handlers and of the answers to them.
use avax_build_games.Prelude.{
  ℕ, Bool, true, false, ◌≡◌, refl, none, List, [], ◌∷◌, Option-cases, inl, inr,
}
use avax_build_games.Pages.Arena.{
  Arena, Waiting, loaded, boot, connect, logout, queue, leave, arena_report, played_again, begun,
  await_answer, fetching_games, fetching_me, joining, leaving, logging_in, reporting, Answers,
  take_waiting, ArenaStep, boots, connects, logs_out, queues, leaves, reports, plays_again, retries,
  selects, hears, answered, arena_step, arena_after,
}
use avax_build_games.Pages.Arena.Sound.{
  IsSound, frees, await_answer-IsSound, taken-IsSound, go_on-IsSound, on_event-IsSound,
}

-- A handler that takes the page until it ends.
begins-IsSound :
    (w : Waiting) (st : Arena)
    → frees w ≡ true
    → IsSound st
    → IsSound (await_answer w (record st { busy = true }))
begins-IsSound w st f h =
    let more =
      await_answer-IsSound w (record st { busy = false })
        (record { busy = λ b. cc b; result = h.result; loading = h.loading; online = h.online }) in
    record {
      busy = λ b. rw f refl;
      result = more.result;
      loading = more.loading;
      online = h.online;
    }

begun-IsSound :
    (w : Waiting) (st : Arena) → frees w ≡ true → IsSound st → IsSound (await_answer w (begun st))
begun-IsSound w st f h =
    begins-IsSound w (record st { error = none }) f
      (record { busy = h.busy; result = h.result; loading = h.loading; online = h.online })

answers-IsSound :
    (i : ℕ) (ans : Answers) (st : Arena) → IsSound st → IsSound (arena_step (answered i ans) st)
unfolding arena_step
answers-IsSound i ans st h = elim (Option-cases (take_waiting i st.waiting)) [
  | inl e ↦ rw (e, arena_step) h
  | inr ((w, rest), e) ↦
      rw (e, arena_step)
        (go_on-IsSound w ans (record st { waiting = rest }) (taken-IsSound i st w rest e h))
]

queue-IsSound : (st : Arena) → IsSound st → IsSound (queue st)
unfolding queue
queue-IsSound st h = elim (Option-cases st.selected) [
  | inl e ↦ rw (e, queue) h
  | inr (game, e) ↦ rw (e, queue) (begun-IsSound joining st refl h)
]

arena_report-IsSound : (st : Arena) → IsSound st → IsSound (arena_report st)
unfolding arena_report
arena_report-IsSound st h = elim (Option-cases st.match_view) [
  | inl e ↦ rw (e, arena_report) h
  | inr (match_id, e) ↦ rw (e, arena_report) (begun-IsSound reporting st refl h)
]

arena_step-IsSound : (s : ArenaStep) (st : Arena) → IsSound st → IsSound (arena_step s st)
unfolding arena_step boot connect logout leave played_again
arena_step-IsSound boots st h = await_answer-IsSound (fetching_games _) st h
arena_step-IsSound connects st h = begun-IsSound logging_in st refl h
arena_step-IsSound logs_out st h = record {
  busy = h.busy;
  result = λ b. cc b;
  loading = λ b. cc b;
  online = h.online;
}
arena_step-IsSound queues st h = queue-IsSound st h
arena_step-IsSound leaves st h = begins-IsSound leaving st refl h
arena_step-IsSound reports st h = arena_report-IsSound st h
arena_step-IsSound plays_again st h =
    await_answer-IsSound (fetching_me false) (record st { result_view = none; match_view = none })
      (record { busy = h.busy; result = h.result; loading = h.loading; online = h.online })
arena_step-IsSound retries st h =
    await_answer-IsSound (fetching_games _) (record st { offline = false })
      (record { busy = h.busy; result = h.result; loading = h.loading; online = refl })
arena_step-IsSound (selects game) st h = record {
  busy = h.busy;
  result = h.result;
  loading = h.loading;
  online = h.online;
}
arena_step-IsSound (hears event) st h = on_event-IsSound event st h
arena_step-IsSound (answered i ans) st h = answers-IsSound i ans st h

-- In every order of what happens on the page, with the answers of the server, whatever they are, in any
-- order too: while the page is busy, a handler waits that frees it when it ends; while it shows the
-- phase of the result, which match_result sets, a fetchMe waits, whose answer ends that phase; while it
-- is loading, a fetchGames or a fetchMe waits; and it never says that the server is offline, as
-- refreshGames takes that error.
pub arena_after-IsSound :
    (stored : Bool) (steps : List ArenaStep) → IsSound (arena_after stored steps)
unfolding arena_after loaded
arena_after-IsSound stored [] = record {
  busy = λ b. cc b;
  result = λ b. cc b;
  loading = λ b. refl;
  online = refl;
}
arena_after-IsSound stored (s ∷ ss) =
    arena_step-IsSound s (arena_after stored ss) (arena_after-IsSound stored ss)
