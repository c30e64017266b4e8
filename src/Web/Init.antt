-- ===== src/Web/Init.antt =====
-- POST of web/src/app/api/tournament/[id]/init/route.ts. The time and the random bytes of the token
-- are arguments. The fields of the body have the types that the route declares, or are missing, and
-- the basis points are natural numbers.
pub mod Guard
use avax_build_games.Prelude.{
  ℕ, ◌+◌, not, Option, none, some, List, [], ◌∷◌, length, ltb, ◌==◌, if◌then◌else◌,
}
use mathlib.Core.Option.{get_or}
use avax_build_games.Web.Text.{Text, codes}
use avax_build_games.Web.Http.{Response, json_error, json, ◌>>=◌, RouteRequest, body_too_large}
use avax_build_games.Web.Store.{
  Db, Player, BracketFormat, BracketState, TournamentRecord, TournamentState, Mode, get_tournament,
  save_tournament, upsert_bracket,
}
use avax_build_games.Web.Auth.{require_organizer}
use avax_build_games.Web.Token.{generate_manage_token}

pub record InitBody : Type 0 where
  pub sponsor : Option Text
  pub prize_pool_wei : Option Text
  pub payout_bps : Option (List ℕ)
  pub format : Option BracketFormat
  pub swiss_rounds : Option ℕ
  pub players : Option (List Player)
  pub tx_hash : Option Text

-- What is left of a body that has the fields that must be there.
pub record InitFields : Type 0 where
  pub payout_bps : List ℕ
  pub format : BracketFormat
  pub players : List Player

unfoldable pub read_init : InitBody → Option InitFields
read_init body = do
  bps ← body.payout_bps
  format ← body.format
  players ← body.players
  some (record { payout_bps = bps; format = format; players = players })

-- body.payoutBps.reduce((a, b) => a + b, 0)
unfoldable pub sum : List ℕ → ℕ
sum [] = 0
sum (x ∷ xs) = x + sum xs

unfoldable pub init_record : ℕ → ℕ → List ℕ → InitBody → InitFields → TournamentRecord
init_record now tid buf body fields = record {
  tournament_id = tid;
  sponsor = get_or body.sponsor (codes "0x0");
  prize_pool_wei = get_or body.prize_pool_wei (codes "0");
  token = codes "0x0000000000000000000000000000000000000000";
  payout_bps = fields.payout_bps;
  winner_wallets = [];
  state = TournamentState.open_state;
  mode = some Mode.bracket;
  manage_token = some (generate_manage_token buf);
  organizer_wallet = body.sponsor;
  paypal_order_id = none;
  tx_hash = body.tx_hash;
  created_at = now;
}

unfoldable pub init_bracket : InitBody → InitFields → BracketState
init_bracket body fields = record {
  format = fields.format;
  swiss_rounds = body.swiss_rounds;
  players = fields.players;
  results = [];
  finalized = none;
  computed_winners = none;
  reports = none;
  disputes = none;
}

unfoldable pub init_fields : ℕ → List ℕ → ℕ → InitBody → InitFields → Db → Response Text × Db
init_fields now buf tid body fields db =
    if not (sum fields.payout_bps == 10000)
    then (json_error 400 "payoutBps must sum to 10000", db)
    else if ltb 16 (length fields.payout_bps)
    then (json_error 400 "too many placements", db)
    else if ltb 1024 (length fields.players)
    then (json_error 400 "too many players", db)
    else (
      json (generate_manage_token buf),
      upsert_bracket tid (init_bracket body fields)
          (save_tournament (init_record now tid buf body fields) db),
    )

-- From the body on.
unfoldable pub init_body : ℕ → List ℕ → ℕ → InitBody → Db → Response Text × Db
unfolding read_init init_fields
init_body now buf tid body db = elim (read_init body) [
  | none ↦ (json_error 400 "missing fields", db)
  | some fields ↦ init_fields now buf tid body fields db
]

unfoldable pub init_tid : ℕ → List ℕ → ℕ → Option Text → InitBody → Db → Response Text × Db
unfolding init_body
init_tid now buf tid authorization body db = elim (get_tournament tid db) [
  | none ↦ init_body now buf tid body db
  | some existing ↦ elim (require_organizer authorization tid db) [
    | none ↦ (json_error 401 "unauthorized", db)
    | some authed ↦ init_body now buf tid body db
  ]
]

unfoldable pub init : ℕ → List ℕ → RouteRequest → InitBody → Db → Response Text × Db
unfolding init_tid
init now buf req body db =
    if body_too_large req.content_length
    then (json_error 413 "payload too large", db)
    else elim req.tid [
      | none ↦ (json_error 400 "bad id", db)
      | some tid ↦ init_tid now buf tid req.authorization body db
    ]
