-- ===== src/Web/Finalize/Success.antt =====
-- The answers of the finalize route.
use mathlib.Core.Option.{get_or}
use avax_build_games.Prelude.{
  ℕ, suc, zero, none, filter, take, not, ◌↔◌, ◌≡◌, refl, sym, ap, ◌∙◌, Bool, true, false, some,
  List, [], ◌∷◌, map, length, ◌==◌, ◌≤◌, contains, All, contains-perm, length-perm, length-map,
  Bool-cases, inl, inr, arith, ==_iff,
}
use avax_build_games.Engine.Types.{ok, entrant_ids}
use avax_build_games.Engine.Tournament.{Tournament}
use avax_build_games.Web.Text.{Text, is_empty_text}
use avax_build_games.Web.Http.{Response, accepted, RouteRequest, body_too_large}
use avax_build_games.Web.Store.{Db, Player, BracketState, TournamentRecord, get_bracket}
use avax_build_games.Web.Auth.{require_organizer}
use avax_build_games.Web.Replay.{reconstruct, entrant_of}
use avax_build_games.Web.Replay.Played.{reconstruct-AllRanked}
use avax_build_games.Web.Finalize.Once.{finalize_winners-result}
use avax_build_games.Engine.Ranking.{winners}
use avax_build_games.Web.Finalize.{
  wallet_of, computed_winners_of, finalize_winners, finalize_complete, finalize_bracket,
  finalize_tid, finalize,
}

-- The player has a wallet.
unfoldable pub HasWallet : Player → Type 0
HasWallet p = is_empty_text p.wallet ≡ false

wallet_of-known :
    (players : List Player) (id : ℕ)
    → All HasWallet players
    → contains id (entrant_ids (map entrant_of players)) ≡ true
    → is_empty_text (wallet_of players id) ≡ false
unfolding wallet_of HasWallet
wallet_of-known [] id all known = cc
wallet_of-known (p ∷ players) id all known = elim (Bool-cases (p.id == id)) [
  | inl e ↦ rw (e, is_empty_text) all.0
  | inr e ↦ rw (e, is_empty_text) (wallet_of-known players id all.1 (ground (arith, known, e)))
]

length-computed_winners_of :
    (players : List Player) (n : ℕ) (ids : List ℕ)
    → All HasWallet players
    → ((i : ℕ) → contains i ids ≡ true → contains i (entrant_ids (map entrant_of players)) ≡ true)
    → n ≤ length ids
    → length (computed_winners_of n players ids) ≡ n
unfolding computed_winners_of
length-computed_winners_of players zero ids all known fits = refl
length-computed_winners_of players (suc n) [] all known fits = omega (arith, fits)
length-computed_winners_of players (suc n) (id ∷ ids) all known fits =
    rw (wallet_of-known players id all (known id (ground arith))) (
      ap suc (
        length-computed_winners_of players n ids all (λ i i_in. known i (ground (arith, i_in)))
          (omega (arith, fits))))

finalize_bracket_pays :
    (tid : ℕ) (rec : TournamentRecord) (b : BracketState) (t : Tournament) (db : Db)
    → get_or b.finalized false ≡ false
    → reconstruct b ≡ ok t
    → t.complete ≡ true
    → length rec.payout_bps ≤ length b.players
    → All HasWallet b.players
    → accepted (finalize_bracket tid rec b db).0 ≡ true
unfolding finalize_bracket finalize_complete finalize_winners
finalize_bracket_pays tid rec b t db e e' e'' fits all =
    let ranked = reconstruct-AllRanked b t e' in
    let size =
      length-perm ranked.all
      ∙ length-map (λ e. e.id) (map entrant_of b.players)
      ∙ length-map entrant_of b.players in
    let paid =
      length-computed_winners_of b.players (length rec.payout_bps) ranked.ranking all
        (λ i i_in. sym (contains-perm i ranked.all) ∙ i_in) (omega (arith, size, fits)) in
    rw
      (
        e,
        e',
        ranked.is_ranking,
        e'',
        paid,
        (==_iff (length rec.payout_bps) (length rec.payout_bps)).1 refl,
      )
      refl

-- The finalize route answers with status 200 when the request is not too large and its header is the
-- organizer's, the stored bracket is not finalized, its results replay to a complete tournament, it
-- has at least as many players as there are payouts, and every player has a wallet.
pub finalize_pays :
    (req : RouteRequest) (tid : ℕ) (db : Db) (rec : TournamentRecord) (b : BracketState)
    (t : Tournament)
    → body_too_large req.content_length ≡ false
    → req.tid ≡ some tid
    → require_organizer req.authorization tid db ≡ some rec
    → get_bracket tid db ≡ some b
    → get_or b.finalized false ≡ false
    → reconstruct b ≡ ok t
    → t.complete ≡ true
    → length rec.payout_bps ≤ length b.players
    → All HasWallet b.players
    → accepted (finalize req db).0 ≡ true
unfolding finalize
finalize_pays req tid db rec b t small numbered authed stored e e' e'' fits all =
    rw (small, numbered, authed, stored, finalize_tid)
      (finalize_bracket_pays tid rec b t db e e' e'' fits all)

length-wallets : (keep : Text → Bool) (xs : List Text) → length (filter keep xs) ≤ length xs
length-wallets keep [] = omega arith
length-wallets keep (x ∷ xs) = ground (arith, length-wallets keep xs)

length-taken : (n : ℕ) (ids : List ℕ) → length (take n ids) ≤ length ids
length-taken zero ids = omega arith
length-taken (suc n) [] = omega arith
length-taken (suc n) (x ∷ ids) = omega (arith, length-taken n ids)

computed_winners_of-few :
    (n : ℕ) (players : List Player) (ids : List ℕ)
    → length (computed_winners_of n players ids) ≤ length ids
unfolding computed_winners_of
computed_winners_of-few n players ids = omega (
  arith,
  length-wallets (λ w. not (is_empty_text w)) (map (wallet_of players) (take n ids)),
  length-map (wallet_of players) (take n ids),
  length-taken n ids,
)

finalize_bracket-finalize_winners :
    (tid : ℕ) (rec : TournamentRecord) (b : BracketState) (t : Tournament) (db : Db) (ids : List ℕ)
    → get_or b.finalized false ≡ false
    → reconstruct b ≡ ok t
    → t.complete ≡ true
    → winners t ≡ some ids
    → finalize_bracket tid rec b db ≡ finalize_winners tid rec b ids db
unfolding finalize_bracket finalize_complete
finalize_bracket-finalize_winners tid rec b t db ids e e' e'' ranked = rw (e, e', ranked, e'') refl

finalize_bracket_fits :
    (tid : ℕ) (rec : TournamentRecord) (b : BracketState) (t : Tournament) (db : Db)
    → get_or b.finalized false ≡ false
    → reconstruct b ≡ ok t
    → t.complete ≡ true
    → accepted (finalize_bracket tid rec b db).0 ≡ true
    → length rec.payout_bps ≤ length b.players
finalize_bracket_fits tid rec b t db e e' e'' h =
    let ranked = reconstruct-AllRanked b t e' in
    let ends =
      finalize_bracket-finalize_winners tid rec b t db ranked.ranking e e' e'' ranked.is_ranking in
    let paid =
      finalize_winners-result none tid db rec b ranked.ranking
        (sym (ap (λ (done : Response ℕ × Db). accepted done.0) ends) ∙ h) in
    let size =
      length-perm ranked.all
      ∙ length-map (λ e. e.id) (map entrant_of b.players)
      ∙ length-map entrant_of b.players in
    omega (
      arith,
      paid.0,
      size,
      computed_winners_of-few (length rec.payout_bps) b.players ranked.ranking,
    )

finalize-finalize_bracket :
    (req : RouteRequest) (tid : ℕ) (db : Db) (rec : TournamentRecord) (b : BracketState)
    → body_too_large req.content_length ≡ false
    → req.tid ≡ some tid
    → require_organizer req.authorization tid db ≡ some rec
    → get_bracket tid db ≡ some b
    → finalize req db ≡ finalize_bracket tid rec b db
unfolding finalize
finalize-finalize_bracket req tid db rec b small numbered authed stored =
    rw (small, numbered, authed, stored, finalize_tid) refl

-- For an organizer's request of small size, an open bracket whose results replay to a complete
-- tournament and whose players all have a wallet, the finalize route answers with status 200 if and
-- only if the bracket has at least as many players as there are payouts.
pub finalize_pays_iff :
    (req : RouteRequest) (tid : ℕ) (db : Db) (rec : TournamentRecord) (b : BracketState)
    (t : Tournament)
    → body_too_large req.content_length ≡ false
    → req.tid ≡ some tid
    → require_organizer req.authorization tid db ≡ some rec
    → get_bracket tid db ≡ some b
    → get_or b.finalized false ≡ false
    → reconstruct b ≡ ok t
    → t.complete ≡ true
    → All HasWallet b.players
    → (accepted (finalize req db).0 ≡ true) ↔ (length rec.payout_bps ≤ length b.players)
finalize_pays_iff req tid db rec b t small numbered authed stored e e' e'' all = (
  λ h.
      let ends = finalize-finalize_bracket req tid db rec b small numbered authed stored in
      finalize_bracket_fits tid rec b t db e e' e''
        (sym (ap (λ (done : Response ℕ × Db). accepted done.0) ends) ∙ h),
  λ fits. finalize_pays req tid db rec b t small numbered authed stored e e' e'' fits all,
)
