-- ===== src/Pages/Play.antt =====
-- web/src/app/play/[id]/page.tsx: the player's match, and the report that the page sends. The wallet
-- of the browser is an argument.
pub mod Signed
use avax_build_games.Prelude.{
  ℕ, Bool, true, false, ◌&&◌, ◌||◌, Option, none, some, List, [], ◌∷◌, ◌++◌, find, contains, ◌==◌,
  if◌then◌else◌, lookup, insert,
}
use avax_build_games.Engine.Types.{Entrant, BracketMatch}
use avax_build_games.Engine.Tournament.{Tournament, pending, matches}
use avax_build_games.Web.Text.{Text, codes, ◌===◌, lower, show}
use avax_build_games.Web.Http.{Attempt, returned, thrown}
use avax_build_games.Web.Store.{Player, ReportSide}
use avax_build_games.Web.Report.{ReportBody}

-- The player with the wallet that is connected.
unfoldable pub my_player : Option Text → List Player → Option Player
my_player none players = none
my_player (some wallet) players = find (λ p. lower p.wallet === lower wallet) players

has_entrant : ℕ → Option Entrant → Bool
has_entrant id none = false
has_entrant id (some e) = e.id == id

-- The player's current pending match.
unfoldable pub my_match : Tournament → Player → Option BracketMatch
unfolding has_entrant
my_match t me =
    find (λ m. contains m.id (pending t) && (has_entrant me.id m.a || has_entrant me.id m.b))
      (matches t)

unfoldable pub my_side : BracketMatch → Player → Option ReportSide
unfolding has_entrant
my_side m me =
    if has_entrant me.id m.a
    then some ReportSide.a
    else if has_entrant me.id m.b
    then some ReportSide.b
    else none

abbrev other_of : ReportSide → BracketMatch → Option Entrant
other_of ReportSide.a m = m.b
other_of ReportSide.b m = m.a

-- `new Map` of the players: the last with an id stays.
unfoldable pub players_by_id : List Player → List (ℕ × Player) → List (ℕ × Player)
players_by_id [] map = map
players_by_id (p ∷ ps) map = players_by_id ps (insert p.id p map)

unfoldable pub opponent : List Player → BracketMatch → ReportSide → Option Player
unfolding players_by_id
opponent players m side = elim (other_of side m) [
  | none ↦ none
  | some e ↦ lookup e.id (players_by_id players [])
]

-- The button that the player presses.
pub data Pressed : Type 0 where
  a b draw : Pressed

abbrev side_text : ReportSide → Text
side_text ReportSide.a = codes "A"
side_text ReportSide.b = codes "B"

abbrev pub pressed_text : Pressed → Text
pressed_text Pressed.a = codes "A"
pressed_text Pressed.b = codes "B"
pressed_text draw = codes "Draw"

unfoldable pub reported_outcome : Pressed → ReportSide → Text
reported_outcome pressed side =
    if pressed_text pressed === codes "Draw"
    then codes "Draw"
    else if pressed_text pressed === side_text side
    then side_text side
    else if side_text side === codes "A"
    then codes "B"
    else codes "A"

unfoldable pub play_message : ℕ → ℕ → Text → Text → ℕ → Text
unfolding show
play_message tid match_id reported nonce ts =
    codes "AMP-report:"
    ++ show tid
    ++ codes ":"
    ++ show match_id
    ++ codes ":"
    ++ reported
    ++ codes ":"
    ++ nonce
    ++ codes ":"
    ++ show ts

unfoldable pub signed_body : Text → ℕ → Text → Text → ℕ → Attempt Text → Attempt ReportBody
signed_body wallet match_id reported nonce ts (thrown e) = thrown e
signed_body wallet match_id reported nonce ts (returned sig) = returned (record {
  wallet = some wallet;
  match_id = some match_id;
  outcome = some reported;
  nonce = some nonce;
  ts = some ts;
  sig = some sig;
})

-- The body that the page sends, by signMessage, a random id without its dashes, and the time.
unfoldable pub play_report :
    (Text → Attempt Text) → Text → ℕ → ℕ → Text → Text → ℕ → Attempt ReportBody
unfolding play_message signed_body
play_report sign_message wallet tid match_id reported nonce ts =
    signed_body wallet match_id reported nonce ts
      (sign_message (play_message tid match_id reported nonce ts))
