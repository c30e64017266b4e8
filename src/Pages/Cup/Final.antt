-- ===== src/Pages/Cup/Final.antt =====
-- The final standings of the public page, and the wallets that the finalize route pays.
use mathlib.Core.List.{Perm}
use avax_build_games.Prelude.{
  ℕ, zero, suc, ◌+◌, ◌≡◌, refl, sym, ap, ap₂, subst, ◌∙◌, true, false, not, Option, none, some,
  List, [], ◌∷◌, map, filter, find, take, length, lookup, contains, range, contains-perm,
  length-perm, length-map, find_sound, Bool-cases, inl, inr, ◌==◌, arith, if◌then◌else◌,
}
use avax_build_games.Engine.Types.{ok, entrant_ids}
use avax_build_games.Engine.Tournament.{Tournament, ids_unique}
use avax_build_games.Engine.Tournament.Played.{Played-ids_unique}
use avax_build_games.Engine.Ranking.{winners}
use avax_build_games.Web.Text.{Text, is_empty_text}
use avax_build_games.Web.Store.{BracketState, Player}
use avax_build_games.Web.Store.Ledger.Tables.{coalesce-none}
use avax_build_games.Web.Replay.{reconstruct, format_of, entrant_of}
use avax_build_games.Web.Replay.Played.{reconstruct-Played, reconstruct-AllRanked}
use avax_build_games.Web.Finalize.{wallet_of, computed_winners_of}
use avax_build_games.Pages.Play.{players_by_id}
use avax_build_games.Pages.Manage.Winners.{lookup-players_by_id}
use avax_build_games.Pages.Cup.{
  Cup, CupShown, Placed, shown, placed_from, first_player, shown_with, cup_shown, view_of, cup_view,
}

-- What the page's map has for a winner.
record IsListed (players : List Player) (id : ℕ) : Type 0 where
  player : Player
  found : lookup id (players_by_id players []) ≡ some player
  same : player.id ≡ id
  paid : wallet_of players id ≡ player.wallet

find-known :
    (players : List Player) (id : ℕ)
    → contains id (entrant_ids (map entrant_of players)) ≡ true
    → (p : Player) × (find (λ (p : Player). p.id == id) players ≡ some p)
find-known [] id known = cc
find-known (p ∷ players) id known = elim (Bool-cases (p.id == id)) [
  | inl e ↦ (p, rw e refl)
  | inr e ↦ let rest = find-known players id (ground (arith, known, e)) in (rest.0, rw e rest.1)
]

known-IsListed :
    (players : List Player) (id : ℕ)
    → ids_unique (map entrant_of players) ≡ true
    → contains id (entrant_ids (map entrant_of players)) ≡ true
    → IsListed players id
unfolding ids_unique wallet_of
known-IsListed players id unique known =
    let (p, e) = find-known players id known in
    let is_id : (p.id == id) ≡ true = find_sound (λ (p : Player). p.id == id) players p e in
    record {
      player = p;
      found =
          lookup-players_by_id [] players [] id unique
          ∙ coalesce-none (find (λ (p : Player). p.id == id) players)
          ∙ e;
      same = ground (arith, is_id);
      paid = rw (e, wallet_of) refl;
    }

abbrev placed_ids : List Placed → List ℕ
placed_ids rs = map (λ (r : Placed). r.player.id) rs

abbrev placed_wallets : List Placed → List Text
placed_wallets rs = map (λ (r : Placed). r.player.wallet) rs

abbrev places : List Placed → List ℕ
places rs = map (λ (r : Placed). r.place) rs

-- The rows of listed winners are theirs, in their order.
record Lists (players : List Player) (i : ℕ) (ids : List ℕ) (rs : List Placed) : Type 0 where
  of_ids : placed_ids rs ≡ ids
  in_order : places rs ≡ range (suc i) (length ids)
  wallets : placed_wallets rs ≡ map (wallet_of players) ids

placed_from-some :
    (by_id : List (ℕ × Player)) (i id : ℕ) (ids : List ℕ) (p : Player)
    → lookup id by_id ≡ some p
    → placed_from by_id i (id ∷ ids)
      ≡ record { place = i + 1; player = p } ∷ placed_from by_id (suc i) ids
unfolding placed_from
placed_from-some by_id i id ids p e = rw (e, placed_from) refl

placed_from-Lists :
    (players : List Player) (i : ℕ) (ids : List ℕ)
    → ((id : ℕ) → contains id ids ≡ true → IsListed players id)
    → Lists players i ids (placed_from (players_by_id players []) i ids)
unfolding placed_from
placed_from-Lists players i [] h = record { of_ids = refl; in_order = refl; wallets = refl }
placed_from-Lists players i (id ∷ ids) h =
    let one = h id (ground arith) in
    let rest = placed_from-Lists players (suc i) ids (λ k k_in. h k (ground (arith, k_in))) in
    let by_id = players_by_id players [] in
    subst (Lists players i (id ∷ ids)) (sym (placed_from-some by_id i id ids one.player one.found))
      (record {
        of_ids = ap₂ (λ k ks. k ∷ ks) one.same rest.of_ids;
        in_order = ap₂ (λ k ks. k ∷ ks) (omega arith) rest.in_order;
        wallets = ap₂ (λ k ks. k ∷ ks) (sym one.paid) rest.wallets;
      })

take-map : (f : ℕ → Text) (n : ℕ) (ids : List ℕ) → map f (take n ids) ≡ take n (map f ids)
take-map f zero ids = refl
take-map f (suc n) [] = refl
take-map f (suc n) (id ∷ ids) = ap (λ ws. f id ∷ ws) (take-map f n ids)

abbrev pub first_placed : List Placed → Option Player
first_placed [] = none
first_placed (r ∷ rs) = some r.player

first_player-first_placed :
    (players : List Player) (ids : List ℕ)
    → ((id : ℕ) → contains id ids ≡ true → IsListed players id)
    → first_player (players_by_id players []) ids
      ≡ first_placed (placed_from (players_by_id players []) 0 ids)
unfolding first_player placed_from
first_player-first_placed players [] h = refl
first_player-first_placed players (id ∷ ids) h =
    let one = h id (ground arith) in
    let by_id = players_by_id players [] in
    one.found ∙ ap first_placed (sym (placed_from-some by_id 0 id ids one.player one.found))

-- What the page shows of a complete tournament.
pub record IsFinal (b : BracketState) (t : Tournament) (s : CupShown) : Type 0 where
  pub complete : s.complete ≡ true
  pub everyone : Perm (placed_ids s.standings) (map (λ (p : Player). p.id) b.players)
  pub in_order : places s.standings ≡ range 1 (length b.players)
  pub champion : s.champion ≡ first_placed s.standings
  pub ids : List ℕ
  pub ranked : winners t ≡ some ids
  pub paid :
      (n : ℕ)
      → computed_winners_of n b.players ids
        ≡ filter (λ w. not (is_empty_text w)) (take n (placed_wallets s.standings))

entrant_ids-players :
    (players : List Player)
    → entrant_ids (map entrant_of players) ≡ map (λ (p : Player). p.id) players
entrant_ids-players [] = refl
entrant_ids-players (p ∷ players) = ap (λ is. p.id ∷ is) (entrant_ids-players players)

shown_with-IsFinal :
    (b : BracketState) (t : Tournament)
    → reconstruct b ≡ ok t
    → t.complete ≡ true
    → (ids : List ℕ) × (winners t ≡ some ids) × IsFinal b t (shown_with b t ids)
unfolding shown_with computed_winners_of
shown_with-IsFinal b t e complete =
    let ranked = reconstruct-AllRanked b t e in
    let ids = ranked.ranking in
    let unique =
      Played-ids_unique (format_of b) (map entrant_of b.players) (reconstruct-Played b t e) in
    let listed : (id : ℕ) → contains id ids ≡ true → IsListed b.players id =
      λ id id_in. known-IsListed b.players id unique (sym (contains-perm id ranked.all) ∙ id_in) in
    let lists = placed_from-Lists b.players 0 ids listed in
    let size : length ids ≡ length b.players =
      length-perm ranked.all
      ∙ ap length (entrant_ids-players b.players)
      ∙ length-map (λ (p : Player). p.id) b.players in
    (
      ids,
      ranked.is_ranking,
      record {
        complete = complete;
        everyone =
            subst (λ is. Perm is (map (λ (p : Player). p.id) b.players)) (sym lists.of_ids)
              (subst (Perm ids) (entrant_ids-players b.players) ranked.all);
        in_order = lists.in_order ∙ ap (range 1) size;
        champion = first_player-first_placed b.players ids listed;
        ids = ids;
        ranked = ranked.is_ranking;
        paid = λ n.
            ap (filter (λ w. not (is_empty_text w)))
              (take-map (wallet_of b.players) n ids ∙ ap (take n) (sym lists.wallets));
      },
    )

cup_shown-complete :
    (b : BracketState) (t : Tournament) (ids : List ℕ)
    → t.complete ≡ true
    → winners t ≡ some ids
    → cup_shown b t ≡ shown (shown_with b t ids)
unfolding cup_shown
cup_shown-complete b t ids complete ranked =
    rw (ranked, cup_shown)
      (ap (λ c. if c then shown (shown_with b t ids) else shown (shown_with b t [])) complete)

view_of-shown :
    (b : BracketState) (t : Tournament)
    → reconstruct b ≡ ok t
    → view_of false (some b) ≡ cup_shown b t
unfolding view_of
view_of-shown b t e = rw (e, view_of) refl

-- Once the results of the bracket replay to a complete tournament, the public page shows it: its
-- final standings list every player once, at the places from 1 on, the champion is the first of
-- them, and for any number of payouts the finalize route derives the wallets of the first of them,
-- less the empty ones.
pub cup_view-IsFinal :
    (st : Cup) (b : BracketState) (t : Tournament)
    → st.loading ≡ false
    → st.bracket ≡ some b
    → reconstruct b ≡ ok t
    → t.complete ≡ true
    → (s : CupShown) × (cup_view st ≡ shown s) × IsFinal b t s
unfolding cup_view
cup_view-IsFinal st b t ready stored e complete =
    let final = shown_with-IsFinal b t e complete in
    (
      shown_with b t final.0,
      ap₂ view_of ready stored
          ∙ view_of-shown b t e
          ∙ cup_shown-complete b t final.0 complete final.1,
      final.2,
    )
