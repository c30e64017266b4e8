-- ===== src/Client/Socket.antt =====
-- connectWs of amp.ts in web/src/lib: the live connection, which reconnects with a growing delay. The
-- state has the variables `closed` and `attempt`, how many sockets have not closed yet, and the
-- delays of the timers that have not fired yet.
pub mod Steps
use avax_build_games.Prelude.{
  ℕ, suc, ◌*◌, ◌-◌, ◌^◌, Bool, true, false, not, ◌||◌, Option, none, some, List, [], ◌∷◌, ◌++◌, min,
  is_some, if◌then◌else◌,
}
use mathlib.Core.Option.{get_or}
use avax_build_games.Web.Text.{Text, codes, drop_prefix}
use avax_build_games.Client.Session.{LocalStorage, stored_session}

pub record Socket : Type 0 where
  pub closed : Bool
  pub attempt : ℕ
  pub sockets : ℕ
  pub timers : List ℕ

-- SERVER_URL.replace(/^http/, "ws") + ...; `encode` is encodeURIComponent.
unfoldable pub socket_url : (Text → Text) → Text → Text → Text
socket_url encode server token =
    (elim (drop_prefix (codes "http") server) [ none ↦ server | some rest ↦ codes "ws" ++ rest ])
    ++ codes "/v1/ws?token="
    ++ encode token

-- `open`, by what localStorage holds at the time.
unfoldable pub open_socket : LocalStorage → Socket → Socket
open_socket storage st =
    if not (is_some (stored_session storage)) || st.closed
    then st
    else record st { sockets = suc st.sockets }

unfoldable pub delay : ℕ → ℕ
delay attempt = min (1000 * 2 ^ attempt) 15000

-- ws.onopen
unfoldable pub on_open : Socket → Socket
on_open st = record st { attempt = 0 }

-- ws.onclose
unfoldable pub on_close : Socket → Socket
unfolding delay
on_close st =
    let left = record st { sockets = st.sockets - 1 } in
    if not st.closed
    then record left { attempt = suc st.attempt; timers = delay (suc st.attempt) ∷ st.timers }
    else left

-- The function that connectWs returns. The socket that it closes will report that it has closed.
unfoldable pub disconnect : Socket → Socket
disconnect st = record st { closed = true }

unfoldable pub start : Socket
start = record { closed = false; attempt = 0; sockets = 0; timers = [] }

unfoldable pub connect_ws : LocalStorage → Socket
unfolding open_socket start
connect_ws storage = open_socket storage start

-- The fields `type` and `data` of a message.
pub record Message {ℓ} (A : Type ℓ) : Type ℓ where
  pub kind : Text
  pub content : Option A

-- ws.onmessage on what JSON.parse gives, `none` where it throws, with the arguments that `onEvent` is called with; `empty` is {}.
unfoldable pub on_message {ℓ} : {A : Type ℓ} → A → Option (Message A) → Option (Text × A)
on_message empty none = none
on_message empty (some msg) = some (msg.kind, get_or msg.content empty)
