-- ===== src/Pages/Arena.antt =====
-- web/src/app/arena/page.tsx: the state of the matchmaker's page and its handlers. A handler runs up to
-- its next call of amp.ts, and goes on when the answer comes, which is an argument; other handlers may
-- run meanwhile. What is only shown is left out: ratings, history, opponents.
pub mod Reach
pub mod Sound
use avax_build_games.Prelude.{
  ℕ, zero, suc, Bool, true, false, Option, none, some, List, [], ◌∷◌, if◌then◌else◌, is_some,
}
use mathlib.Core.Option.{get_or}
use avax_build_games.Web.Text.{Text, codes, ◌===◌}
use avax_build_games.Web.Http.{Attempt, returned, thrown}

-- A promise whose value is not read.
pub data Settled : Type 0 where
  fulfilled : Settled
  rejected : Text → Settled

pub data Phase : Type 0 where
  loading logged_out idle queued match_found reported result disputed : Phase

pub record QueueStats : Type 0 where
  pub depth : ℕ
  pub waited_ms : ℕ
  pub skill_window : ℕ

pub record ResultView : Type 0 where
  pub match_id : Text
  pub outcome : Text
  pub won : Bool

-- A handler that waits for an answer. `fetching_games` has whether a ruleset was selected when it began,
-- and the two calls of refreshMe have whether they belong to `connect`.
pub data Waiting : Type 0 where
  fetching_games fetching_me fetching_history : Bool → Waiting
  logging_in joining leaving reporting : Waiting

-- `match_view` is the id of the match shown, and `stored` whether localStorage has a session.
pub record Arena : Type 0 where
  pub phase : Phase
  pub wallet : Option Text
  pub selected : Option (Text × Text)
  pub queue_stats : QueueStats
  pub match_view : Option Text
  pub result_view : Option ResultView
  pub error : Option Text
  pub offline : Bool
  pub busy : Bool
  pub stored : Bool
  pub waiting : List Waiting

-- What fetchMe gives: `live_match` if liveMatchId is neither null nor empty.
pub record Me : Type 0 where
  pub wallet : Text
  pub queue_ticket : Bool
  pub live_match : Bool

abbrev no_stats : QueueStats
no_stats = record { depth = 0; waited_ms = 0; skill_window = 350 }

-- The page when the effect of `boot` has begun.
unfoldable pub loaded : Bool → Arena
loaded stored = record {
  phase = loading;
  wallet = none;
  selected = none;
  queue_stats = no_stats;
  match_view = none;
  result_view = none;
  error = none;
  offline = false;
  busy = false;
  stored = stored;
  waiting = fetching_games false ∷ [];
}

-- The first game with its first ruleset, of the games with the ids of their rulesets.
first_ruleset : List (Text × List Text) → Option (Text × Text)
first_ruleset [] = none
first_ruleset ((game, []) ∷ games) = none
first_ruleset ((game, rules ∷ rulesets) ∷ games) = some (game, rules)

abbrev pub await_answer : Waiting → Arena → Arena
await_answer w st = record st { waiting = w ∷ st.waiting }

-- refreshGames once fetchGames has answered: the state, and how its promise settles.
unfoldable pub refresh_games : Bool → Attempt (List (Text × List Text)) → Arena → Settled × Arena
unfolding first_ruleset
refresh_games selected (thrown e) st = (fulfilled, st)
refresh_games selected (returned games) st = elim (first_ruleset games) [
  | none ↦ (fulfilled, st)
  | some first ↦ (fulfilled, if selected then st else record st { selected = some first })
]

-- `boot` after refreshGames.
unfoldable pub boot_on : Settled × Arena → Arena
boot_on (rejected e, st) = record st { offline = true }
boot_on (fulfilled, st) =
    if st.stored then await_answer (fetching_me false) st else record st { phase = logged_out }

-- `boot`, which runs again when `selected` has changed.
unfoldable pub boot : Arena → Arena
boot st = await_answer (fetching_games (is_some st.selected)) st

abbrev pub phase_of : Me → Phase
phase_of me = if me.queue_ticket then queued else if me.live_match then match_found else idle

abbrev pub signed_out : Arena → Arena
signed_out st = record st { stored = false; wallet = none; phase = logged_out }

-- The end of refreshMe: `finally` of `connect`, where it belongs to that.
abbrev pub refreshed : Bool → Arena → Arena
refreshed true st = record st { busy = false }
refreshed false st = st

-- refreshMe once fetchMe has answered.
unfoldable pub refresh_me : Bool → Attempt Me → Arena → Arena
refresh_me connecting (thrown e) st = refreshed connecting (signed_out st)
refresh_me connecting (returned me) st =
    await_answer (fetching_history connecting)
      (record st { wallet = some me.wallet; phase = phase_of me })

-- refreshMe once fetchHistory has answered.
unfoldable pub refresh_history : Bool → Settled → Arena → Arena
refresh_history connecting (rejected e) st = refreshed connecting (signed_out st)
refresh_history connecting fulfilled st = refreshed connecting st

-- An event of the socket, with the fields that are read. `match_update` has the state.
pub data Event : Type 0 where
  queue_status : Option ℕ → Option ℕ → Option ℕ → Event
  found : Text → Event
  decided : ResultView → Event
  match_update : Text → Event
  other_event : Event

abbrev updated : Text → Arena → Arena
updated state st =
    let st' = if state === codes "disputed" then record st { phase = disputed } else st in
    if state === codes "cancelled"
    then record st' {
      phase = idle;
      error = some (codes "Match cancelled (expired or opponent never showed).");
    }
    else st'

unfoldable pub on_event : Event → Arena → Arena
on_event (queue_status depth waited window) st = record st {
  queue_stats = record {
    depth = get_or depth 0;
    waited_ms = get_or waited 0;
    skill_window = get_or window 350;
  };
}
on_event (found match_id) st = record st { match_view = some match_id; phase = match_found }
on_event (decided view) st =
    await_answer (fetching_me false) (record st { result_view = some view; phase = result })
on_event (match_update state) st = updated state st
on_event other_event st = st

-- setBusy(true); setError(null)
abbrev pub begun : Arena → Arena
begun st = record st { busy = true; error = none }

unfoldable pub connect : Arena → Arena
connect st = await_answer logging_in (begun st)

-- From loginWithWallet on, which stores the session.
unfoldable pub after_login : Attempt Text → Arena → Arena
after_login (thrown e) st = record st { error = some e; busy = false }
after_login (returned wallet) st =
    await_answer (fetching_me true) (record st { stored = true; wallet = some wallet })

unfoldable pub logout : Arena → Arena
logout st = signed_out st

unfoldable pub queue : Arena → Arena
queue st = elim st.selected [ none ↦ st | some game ↦ await_answer joining (begun st) ]

-- From joinQueue on.
unfoldable pub after_join : Settled → Arena → Arena
after_join (rejected e) st = record st { error = some e; busy = false }
after_join fulfilled st = record st { queue_stats = no_stats; phase = queued; busy = false }

unfoldable pub leave : Arena → Arena
leave st = await_answer leaving (record st { busy = true })

-- From leaveQueue on.
unfoldable pub after_leave : Settled → Arena → Arena
after_leave (rejected e) st = record st { busy = false }
after_leave fulfilled st = record st { phase = idle; busy = false }

unfoldable pub arena_report : Arena → Arena
arena_report st = elim st.match_view [
  | none ↦ st
  | some match_id ↦ await_answer reporting (begun st)
]

-- From reportOutcome on.
unfoldable pub after_report : Settled → Arena → Arena
after_report (rejected e) st = record st { error = some e; busy = false }
after_report fulfilled st = record st { phase = reported; busy = false }

unfoldable pub played_again : Arena → Arena
played_again st =
    await_answer (fetching_me false) (record st { result_view = none; match_view = none })

-- What the calls of amp.ts give: fetchGames, fetchMe, loginWithWallet, and those without a value.
pub record Answers : Type 0 where
  pub games : Attempt (List (Text × List Text))
  pub me : Attempt Me
  pub wallet : Attempt Text
  pub done : Settled

-- A handler goes on with the answer to its call.
unfoldable pub go_on : Waiting → Answers → Arena → Arena
unfolding refresh_games boot_on refresh_me refresh_history after_login after_join after_leave
    after_report
go_on (fetching_games selected) ans st = boot_on (refresh_games selected ans.games st)
go_on (fetching_me connecting) ans st = refresh_me connecting ans.me st
go_on (fetching_history connecting) ans st = refresh_history connecting ans.done st
go_on logging_in ans st = after_login ans.wallet st
go_on joining ans st = after_join ans.done st
go_on leaving ans st = after_leave ans.done st
go_on reporting ans st = after_report ans.done st

-- The waiting handler with the number `i`, and the others.
abbrev pub take_waiting : ℕ → List Waiting → Option (Waiting × List Waiting)
take_waiting i [] = none
take_waiting zero (w ∷ ws) = some (w, ws)
take_waiting (suc i) (w ∷ ws) = elim (take_waiting i ws) [
  | none ↦ none
  | some taken ↦ some (taken.0, w ∷ taken.1)
]

-- What happens on the page. The buttons may be pressed at any time, and the answers come in any order.
pub data ArenaStep : Type 0 where
  boots connects logs_out queues leaves reports plays_again retries : ArenaStep
  selects : Text × Text → ArenaStep
  hears : Event → ArenaStep
  answered : ℕ → Answers → ArenaStep

unfoldable pub arena_step : ArenaStep → Arena → Arena
unfolding boot connect logout queue leave arena_report played_again on_event go_on
arena_step boots st = boot st
arena_step connects st = connect st
arena_step logs_out st = logout st
arena_step queues st = queue st
arena_step leaves st = leave st
arena_step reports st = arena_report st
arena_step plays_again st = played_again st
arena_step retries st = boot (record st { offline = false })
arena_step (selects game) st = record st { selected = some game }
arena_step (hears event) st = on_event event st
arena_step (answered i ans) st = elim (take_waiting i st.waiting) [
  | none ↦ st
  | some taken ↦ go_on taken.0 ans (record st { waiting = taken.1 })
]

-- The page after some steps, the last of them first.
unfoldable pub arena_after : Bool → List ArenaStep → Arena
unfolding arena_step loaded
arena_after stored [] = loaded stored
arena_after stored (s ∷ ss) = arena_step s (arena_after stored ss)
