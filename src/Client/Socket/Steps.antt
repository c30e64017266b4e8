-- ===== src/Client/Socket/Steps.antt =====
-- The live connection as a step relation: what the browser may do with the state of connectWs, in any
-- order.
use avax_build_games.Prelude.{
  ℕ, suc, ◌+◌, ◌*◌, ◌≤◌, ◌<◌, ◌≡◌, refl, ap, subst, true, not, ◌||◌, List, ◌∷◌, length, All,
  is_some, Bool-cases, inl, inr, ◌⊎◌, arith,
}
use avax_build_games.Engine.Seeding.BitReverse.{two_pow_suc, one-le-two_pow}
use avax_build_games.Client.Session.{LocalStorage, stored_session}
use avax_build_games.Client.Socket.{
  Socket, open_socket, delay, on_open, on_close, disconnect, start, connect_ws,
}

-- A step: a socket opens or closes, a timer fires and `open` reads what localStorage holds then, or
-- the page disconnects. `Holds` is what is known of localStorage.
pub data Step (Holds : LocalStorage → Type 0) : Socket → Socket → Type 0 where
  opens : (st : Socket) → 0 < st.sockets → Step Holds st (on_open st)
  closes : (st : Socket) → 0 < st.sockets → Step Holds st (on_close st)
  fires :
      (st : Socket) (storage : LocalStorage) (d : ℕ) (ds : List ℕ)
      → Holds storage
      → st.timers ≡ d ∷ ds
      → Step Holds st (open_socket storage (record st { timers = ds }))
  disconnects : (st : Socket) → Step Holds st (disconnect st)

pub data Steps (Holds : LocalStorage → Type 0) : Socket → Socket → Type 0 where
  stays : (st : Socket) → Steps Holds st st
  goes : {st next last : Socket} → Step Holds st next → Steps Holds next last → Steps Holds st last

-- At most one socket or timer is there, and a timer waits from two to fifteen seconds.
pub record IsSingle (st : Socket) : Type 0 where
  pub one : st.sockets + length st.timers ≤ 1
  pub waits : All (λ d. (2000 ≤ d) × (d ≤ 15000)) st.timers

delay-bounds : (n : ℕ) → (2000 ≤ delay (suc n)) × (delay (suc n) ≤ 15000)
unfolding delay
delay-bounds n =
    let double = ap (λ (t : ℕ). 1000 * t) (two_pow_suc n) in
    let one = one-le-two_pow n in (omega arith, omega arith)

open_socket-IsSingle :
    (storage : LocalStorage) (st : Socket)
    → st.sockets + length st.timers ≡ 0
    → All (λ d. (2000 ≤ d) × (d ≤ 15000)) st.timers
    → IsSingle (open_socket storage st)
unfolding open_socket
open_socket-IsSingle storage st h w =
    elim (Bool-cases (not (is_some (stored_session storage)) || st.closed)) [
      | inl e ↦ rw e (record { one = omega arith; waits = w })
      | inr e ↦ rw e (record { one = omega arith; waits = w })
    ]

on_close-IsSingle : (st : Socket) → 0 < st.sockets → IsSingle st → IsSingle (on_close st)
unfolding on_close
on_close-IsSingle st h s =
    let one = s.one in
    elim (Bool-cases st.closed) [
      | inl e ↦ rw e (record { one = omega arith; waits = s.waits })
      | inr e ↦ rw e (record { one = omega arith; waits = (delay-bounds st.attempt, s.waits) })
    ]

fired-IsSingle :
    (storage : LocalStorage) (st : Socket) (d : ℕ) (ds : List ℕ)
    → st.timers ≡ d ∷ ds
    → IsSingle st
    → IsSingle (open_socket storage (record st { timers = ds }))
fired-IsSingle storage st d ds e s =
    let one = rw e at s.one in
    let waits = subst (λ ts. All (λ t. (2000 ≤ t) × (t ≤ 15000)) ts) e s.waits in
    open_socket-IsSingle storage (record st { timers = ds }) (omega (arith, one)) waits.1

module _ {Holds : LocalStorage → Type 0} where
  Step-IsSingle : {st next : Socket} → Step Holds st next → IsSingle st → IsSingle next
  unfolding on_open disconnect
  Step-IsSingle (opens st h) s = record { one = s.one; waits = s.waits }
  Step-IsSingle (closes st h) s = on_close-IsSingle st h s
  Step-IsSingle (fires st storage d ds k e) s = fired-IsSingle storage st d ds e s
  Step-IsSingle (disconnects st) s = record { one = s.one; waits = s.waits }

  Steps-IsSingle : {st last : Socket} → Steps Holds st last → IsSingle st → IsSingle last
  Steps-IsSingle (stays st) s = s
  Steps-IsSingle (goes step steps) s = Steps-IsSingle steps (Step-IsSingle step s)

-- From connectWs on, whatever the sockets, the timers and the page do: at most one of a socket and a
-- timer is there, and a timer waits between 2 and 15 seconds.
pub connect_ws-IsSingle :
    (Holds : LocalStorage → Type 0) (storage : LocalStorage) (st : Socket)
    → Steps Holds (connect_ws storage) st
    → IsSingle st
unfolding connect_ws start
connect_ws-IsSingle Holds storage st steps =
    Steps-IsSingle steps (open_socket-IsSingle storage start (omega arith) tt)

-- The page has disconnected, or a socket is there, or a timer that will open one.
abbrev pub IsAlive : Socket → Type 0
IsAlive st = (st.closed ≡ true) ⊎ (1 ≤ st.sockets + length st.timers)

abbrev pub HasSession : LocalStorage → Type 0
HasSession storage = is_some (stored_session storage) ≡ true

open_socket-IsAlive :
    (storage : LocalStorage) (st : Socket)
    → is_some (stored_session storage) ≡ true
    → IsAlive (open_socket storage st)
unfolding open_socket
open_socket-IsAlive storage st h = elim (Bool-cases st.closed) [
  | inl e ↦ rw (h, e) (inl refl)
  | inr e ↦ rw (h, e) (inr (omega arith))
]

on_close-IsAlive : (st : Socket) → IsAlive (on_close st)
unfolding on_close
on_close-IsAlive st = elim (Bool-cases st.closed) [
  | inl e ↦ rw e (inl refl)
  | inr e ↦ rw e (inr (omega arith))
]

Step-IsAlive : {st next : Socket} → Step HasSession st next → IsAlive st → IsAlive next
unfolding on_open disconnect
Step-IsAlive (opens st h) alive = alive
Step-IsAlive (closes st h) alive = on_close-IsAlive st
Step-IsAlive (fires st storage d ds k e) alive =
    open_socket-IsAlive storage (record st { timers = ds }) k
Step-IsAlive (disconnects st) alive = inl refl

Steps-IsAlive : {st last : Socket} → Steps HasSession st last → IsAlive st → IsAlive last
Steps-IsAlive (stays st) alive = alive
Steps-IsAlive (goes step steps) alive = Steps-IsAlive steps (Step-IsAlive step alive)

-- While localStorage has a session whenever it is read, connectWs does not give up: until the page
-- disconnects, a socket is there or a timer that will open one.
pub connect_ws-IsAlive :
    (storage : LocalStorage) (st : Socket)
    → HasSession storage
    → Steps HasSession (connect_ws storage) st
    → IsAlive st
unfolding connect_ws
connect_ws-IsAlive storage st h steps = Steps-IsAlive steps (open_socket-IsAlive storage start h)
