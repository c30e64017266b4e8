-- ===== src/Pages/Setup/Roster.antt =====
-- The roster that the setup page reads, and the engine that is started with it.
use avax_build_games.Prelude.{
  ℕ, suc, ◌+◌, ◌-◌, ◌≤◌, ◌<◌, ◌≡◌, refl, ap, true, false, List, [], ◌∷◌, ◌++◌, map, length,
  replicate, contains, All, arith, Bool-cases, inl, inr, ltb, if◌then◌else◌, filter, not,
  length-append, length-replicate,
}
use avax_build_games.Engine.Types.{ok, TournamentFormat, Entrant}
use avax_build_games.Engine.Tournament.{
  Tournament, new, no_rounds, ids_unique, ids_unique_from, fresh, start_as, recompute_complete,
}
use avax_build_games.Web.Token.{to_hex}
use avax_build_games.Web.Text.{Text, codes, trim, is_empty_text}
use avax_build_games.Web.Store.{Player, bracket}
use avax_build_games.Web.Replay.{entrant_of}
use avax_build_games.Pages.Setup.{
  is_address_text, placeholder_wallet, player_of, players_from, players_of, can_proceed_winners,
  split, pad_forty, wallet_part,
}

contains-below : (i : ℕ) (seen : List ℕ) → All (λ s. s < i) seen → contains i seen ≡ false
contains-below i [] h = refl
contains-below i (s ∷ seen) (hs, h) = ground (arith, contains-below i seen h)

below-weaken : (i : ℕ) (seen : List ℕ) → All (λ s. s < i) seen → All (λ s. s < suc i) seen
below-weaken i [] h = tt
below-weaken i (s ∷ seen) (hs, h) = (omega arith, below-weaken i seen h)

players_from_unique :
    (i : ℕ) (lines : List Text) (seen : List ℕ)
    → All (λ s. s < i) seen
    → ids_unique_from seen (map entrant_of (players_from i lines)) ≡ true
unfolding ids_unique_from players_from player_of
players_from_unique i [] seen h = refl
players_from_unique i (line ∷ lines) seen h =
    rw (contains-below i seen h)
      (players_from_unique (suc i) lines (i ∷ seen) (omega arith, below-weaken i seen h))

-- A wallet that the page takes for one.
abbrev pub HasAddress : Player → Type 0
HasAddress p = is_address_text p.wallet ≡ true

length-padded : (s : Text) → 40 ≤ length (replicate (40 - length s) b'0' ++ s)
length-padded s =
    rw
      (
        length-append (replicate (40 - length s) b'0') s,
        length-replicate {A = ℕ} (40 - length s) b'0',
      )
      (omega arith)

is_address_text-long : (s : Text) → 4 ≤ length s → is_address_text (codes "0x" ++ s) ≡ true
unfolding is_address_text
is_address_text-long s h = ground (arith, h)

placeholder_wallet-is_address_text : (i : ℕ) → is_address_text (placeholder_wallet i) ≡ true
unfolding placeholder_wallet pad_forty
placeholder_wallet-is_address_text i =
    let digits = to_hex (i + 1) in
    is_address_text-long (replicate (40 - length digits) b'0' ++ digits)
      (omega (arith, length-padded digits))

either-is_address_text :
    (wallet placeholder : Text)
    → is_address_text placeholder ≡ true
    → is_address_text (if is_address_text wallet then wallet else placeholder) ≡ true
either-is_address_text wallet placeholder h = elim (Bool-cases (is_address_text wallet)) [
  | inl e ↦ rw e e
  | inr e ↦ rw e h
]

player_of-HasAddress : (i : ℕ) (line : Text) → HasAddress (player_of i line)
unfolding player_of
player_of-HasAddress i line =
    either-is_address_text (trim (wallet_part (map trim (split b',' line)))) (placeholder_wallet i)
      (placeholder_wallet-is_address_text i)

players_from-HasAddress : (i : ℕ) (lines : List Text) → All HasAddress (players_from i lines)
unfolding players_from
players_from-HasAddress i [] = tt
players_from-HasAddress i (line ∷ lines) =
    (player_of-HasAddress i line, players_from-HasAddress (suc i) lines)

length-map-entrant_of : (ps : List Player) → length (map entrant_of ps) ≡ length ps
length-map-entrant_of [] = refl
length-map-entrant_of (p ∷ ps) = ap suc (length-map-entrant_of ps)

new-ok :
    (format : TournamentFormat) (entrants : List Entrant)
    → ltb (length entrants) 2 ≡ false
    → ids_unique entrants ≡ true
    → no_rounds format ≡ false
    → (t : Tournament) × (new format entrants ≡ ok t)
unfolding new
new-ok format entrants enough unique rounds =
    (recompute_complete (start_as format (fresh format entrants)), rw (enough, unique, rounds) refl)

-- What the page hands over in the bracket mode.
pub record IsRoster (format : TournamentFormat) (players : List Player) : Type 0 where
  pub starts : (t : Tournament) × (new format (map entrant_of players) ≡ ok t)
  pub addressed : All HasAddress players

-- When the page lets the bracket mode go on, whatever the text is, then the engine takes the players
-- in every format but a Swiss one without rounds, and each has a wallet that starts like an address.
pub players_of-IsRoster :
    (text : Text) (format : TournamentFormat)
    → no_rounds format ≡ false
    → can_proceed_winners bracket (players_of text) [] [] ≡ true
    → IsRoster format (players_of text)
unfolding can_proceed_winners players_of ids_unique
players_of-IsRoster text format h many =
    let lines = filter (λ l. not (is_empty_text l)) (map trim (split 10 text)) in
    let players = players_from 0 lines in
    let enough : ltb (length (map entrant_of players)) 2 ≡ false =
      rw (length-map-entrant_of players) (ground (arith, many)) in
    record {
      starts = new-ok format (map entrant_of players) enough (players_from_unique 0 lines [] tt) h;
      addressed = players_from-HasAddress 0 lines;
    }
