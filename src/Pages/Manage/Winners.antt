-- ===== src/Pages/Manage/Winners.antt =====
-- The winners that the organizer's page shows and those that the finalize route pays.
use avax_build_games.Prelude.{
  ℕ, ◌≡◌, refl, ◌∙◌, sym, ap, true, not, none, List, [], ◌∷◌, map, filter, find, take, contains,
  lookup, insert, lookup-insert, ◌==◌, ==_iff, Bool-cases, inl, inr, arith,
}
use avax_build_games.Engine.Tournament.{ids_unique_from, ids_unique}
use avax_build_games.Web.Text.{Text, is_empty_text}
use avax_build_games.Web.Store.{Player, coalesce}
use avax_build_games.Web.Store.Ledger.Tables.{coalesce-none}
use avax_build_games.Web.Replay.{entrant_of}
use avax_build_games.Web.Finalize.{wallet_of, computed_winners_of}
use avax_build_games.Pages.Play.{players_by_id}
use avax_build_games.Pages.Manage.{player_wallet, winner_wallets}

find-seen :
    (seen : List ℕ) (ps : List Player) (x : ℕ)
    → contains x seen ≡ true
    → ids_unique_from seen (map entrant_of ps) ≡ true
    → find (λ (p : Player). p.id == x) ps ≡ none
unfolding ids_unique_from
find-seen seen [] x known unique = refl
find-seen seen (p ∷ ps) x known unique = elim (Bool-cases (contains p.id seen)) [
  | inl e ↦ cc (rw e at unique)
  | inr e ↦ elim (Bool-cases (p.id == x)) [
    | inl e' ↦
        let same = (==_iff p.id x).0 e' in cc (sym known ∙ sym (ap (λ y. contains y seen) same) ∙ e)
    | inr e' ↦
        let more : contains x (p.id ∷ seen) ≡ true = ground (arith, known) in
        rw e' (find-seen (p.id ∷ seen) ps x more (rw e at unique))
  ]
]

pub lookup-players_by_id :
    (seen : List ℕ) (ps : List Player) (rows : List (ℕ × Player)) (x : ℕ)
    → ids_unique_from seen (map entrant_of ps) ≡ true
    → lookup x (players_by_id ps rows)
      ≡ coalesce (find (λ (p : Player). p.id == x) ps) (lookup x rows)
unfolding ids_unique_from players_by_id
lookup-players_by_id seen [] rows x unique = refl
lookup-players_by_id seen (p ∷ ps) rows x unique = elim (Bool-cases (contains p.id seen)) [
  | inl e ↦ cc (rw e at unique)
  | inr e ↦
      let unique' = rw e at unique in
      let rest = lookup-players_by_id (p.id ∷ seen) ps (insert p.id p rows) x unique' in
      elim (Bool-cases (p.id == x)) [
        | inl e' ↦
            let known : contains x (p.id ∷ seen) ≡ true = ground (arith, e') in
            rest
            ∙ rw (lookup-insert p.id x p rows, find-seen (p.id ∷ seen) ps x known unique', e') refl
        | inr e' ↦ rest ∙ rw (lookup-insert p.id x p rows, e') refl
      ]
]

player_wallet-wallet_of :
    (players : List Player) (id : ℕ)
    → ids_unique (map entrant_of players) ≡ true
    → player_wallet players id ≡ wallet_of players id
unfolding ids_unique player_wallet wallet_of
player_wallet-wallet_of players id unique =
    let row =
      lookup-players_by_id [] players [] id unique
      ∙ coalesce-none (find (λ (p : Player). p.id == id) players) in
    rw (row, player_wallet, wallet_of) refl

map-wallets :
    (players : List Player) (ids : List ℕ)
    → ids_unique (map entrant_of players) ≡ true
    → map (wallet_of players) ids ≡ map (player_wallet players) ids
map-wallets players [] unique = refl
map-wallets players (id ∷ ids) unique =
    rw (player_wallet-wallet_of players id unique, map-wallets players ids unique) refl

-- Of players that the engine takes, the finalize route pays the wallets that the page shows, in their
-- order and without the empty ones.
pub computed_winners_of-winner_wallets :
    (placements : ℕ) (players : List Player) (ids : List ℕ)
    → ids_unique (map entrant_of players) ≡ true
    → computed_winners_of placements players ids
      ≡ filter (λ w. not (is_empty_text w)) (winner_wallets placements players ids)
unfolding computed_winners_of winner_wallets
computed_winners_of-winner_wallets placements players ids unique =
    ap (λ ws. filter (λ (w : Text). not (is_empty_text w)) ws)
      (map-wallets players (take placements ids) unique)
