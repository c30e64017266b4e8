-- ===== src/Pages/Setup/Registered.antt =====
-- The launch of a bracket from the setup page, and the init route that takes it.
use avax_build_games.Prelude.{
  ℕ, ◌≤◌, ◌<◌, ◌≡◌, refl, sym, ap, ◌∙◌, subst, Bool, true, false, Option, none, some, List, length,
  map, All, ltb, arith, ==_iff, [],
}
use mathlib.Core.Option.{some-injective}
use avax_build_games.Engine.Types.{ok, TournamentFormat}
use avax_build_games.Engine.Tournament.{Tournament, new, no_rounds}
use avax_build_games.Web.Text.{Text}
use avax_build_games.Web.Http.{accepted, json, RouteRequest, body_too_large}
use avax_build_games.Web.Token.{generate_manage_token}
use avax_build_games.Web.Store.{
  Db, Mode, bracket, BracketFormat, BracketState, TournamentRecord, get_tournament, save_tournament,
  get_bracket, upsert_bracket,
}
use avax_build_games.Web.Store.Upserts.{
  get_tournament-save_tournament, get_tournament-upsert_bracket, get_bracket-upsert_bracket,
}
use avax_build_games.Web.Auth.{require_organizer}
use avax_build_games.Web.Auth.Bearer.{bearer}
use avax_build_games.Web.Replay.{reconstruct, format_of, replay, entrant_of}
use avax_build_games.Web.Init.{
  InitBody, InitFields, read_init, sum, init_record, init_bracket, init_fields, init_body, init_tid,
  init,
}
use avax_build_games.Web.Init.Guard.{init-Initialized, manage_token-organizer}
use avax_build_games.Client.Cup.{CupEnv, Preset, winner_takes_all, top2, top3, top4, payout_presets}
use avax_build_games.Pages.Setup.{players_of, can_proceed_winners}
use avax_build_games.Pages.Setup.Roster.{IsRoster, players_of-IsRoster}
use avax_build_games.Pages.Setup.Steps.{
  SetupPage, SetupEvent, setup_after, can_fund, winner_addresses,
}
use avax_build_games.Pages.Setup.Steps.Ready.{is_fund, setup_after-can_fund}
use avax_build_games.Pages.Setup.Launch.{launch_body}

sum-payout_presets : (p : Preset) → sum (payout_presets p) ≡ 10000
unfolding sum payout_presets
sum-payout_presets winner_takes_all = refl
sum-payout_presets top2 = refl
sum-payout_presets top3 = refl
sum-payout_presets top4 = refl

pub few-payout_presets : (p : Preset) → ltb 16 (length (payout_presets p)) ≡ false
unfolding payout_presets
few-payout_presets winner_takes_all = refl
few-payout_presets top2 = refl
few-payout_presets top3 = refl
few-payout_presets top4 = refl

-- What the init route reads of the body.
abbrev launch_fields : SetupPage → InitFields
launch_fields st = record {
  payout_bps = payout_presets st.preset;
  format = BracketFormat.single_elimination;
  players = players_of st.players_text;
}

module _ (now : ℕ) (buf : List ℕ) (req : RouteRequest) (tid : ℕ) (st : SetupPage) (sponsor : Text)
    (value : ℕ) (hash : Option Text) (db : Db) where
  abbrev body : InitBody
  body = launch_body st sponsor value hash

  read_init-launch_body : read_init body ≡ some (launch_fields st)
  unfolding read_init launch_body
  read_init-launch_body = refl

  init_fields-accepted :
      length (players_of st.players_text) ≤ 1024
      → accepted (init_fields now buf tid body (launch_fields st) db).0 ≡ true
  unfolding init_fields
  init_fields-accepted fit =
      let fits : ltb 1024 (length (players_of st.players_text)) ≡ false = ground (arith, fit) in
      rw (sum-payout_presets st.preset, few-payout_presets st.preset, fits) refl

  init-accepted :
      body_too_large req.content_length ≡ false
      → req.tid ≡ some tid
      → get_tournament tid db ≡ none
      → length (players_of st.players_text) ≤ 1024
      → accepted (init now buf req body db).0 ≡ true
  unfolding init init_tid init_body
  init-accepted small e free fit =
      rw (small, e, free, init_tid, read_init-launch_body, init_body) (init_fields-accepted fit)

-- What the init route has stored of a launch, and whom it lets in.
pub record IsRegistered (tid : ℕ) (st : SetupPage) (token : Text) (db : Db) : Type 0 where
  pub rec : TournamentRecord
  pub organizer : require_organizer (bearer token) tid db ≡ some rec
  pub payouts : rec.payout_bps ≡ payout_presets st.preset
  pub bracket : BracketState
  pub stored : get_bracket tid db ≡ some bracket
  pub entrants : bracket.players ≡ players_of st.players_text
  pub tournament : Tournament
  pub replayed : reconstruct bracket ≡ ok tournament

no_rounds-single_elimination : no_rounds TournamentFormat.single_elimination ≡ false
unfolding no_rounds
no_rounds-single_elimination = refl

reconstruct-launched :
    (b : InitBody) (st : SetupPage) (t : Tournament)
    → new TournamentFormat.single_elimination (map entrant_of (players_of st.players_text)) ≡ ok t
    → reconstruct (init_bracket b (launch_fields st)) ≡ ok t
unfolding reconstruct format_of init_bracket replay
reconstruct-launched b st t h = rw h refl

module _ (now : ℕ) (buf : List ℕ) (tid : ℕ) (st : SetupPage) (b : InitBody) (db : Db) where
  abbrev stored_record : TournamentRecord
  stored_record = init_record now tid buf b (launch_fields st)

  abbrev stored_bracket : BracketState
  stored_bracket = init_bracket b (launch_fields st)

  abbrev stored_db : Db
  stored_db = upsert_bracket tid stored_bracket (save_tournament stored_record db)

  get_tournament-stored :
      get_tournament tid db ≡ none → get_tournament tid stored_db ≡ some stored_record
  unfolding init_record
  get_tournament-stored free =
      get_tournament-upsert_bracket tid tid stored_bracket (save_tournament stored_record db)
      ∙ get_tournament-save_tournament tid stored_record db
      ∙ rw ((==_iff tid tid).1 refl, free) refl

  get_bracket-stored : get_bracket tid stored_db ≡ some stored_bracket
  get_bracket-stored =
      get_bracket-upsert_bracket tid tid stored_bracket (save_tournament stored_record db)
      ∙ rw ((==_iff tid tid).1 refl) refl

  stored_db-IsRegistered :
      (t : Tournament)
      → new TournamentFormat.single_elimination (map entrant_of (players_of st.players_text)) ≡ ok t
      → get_tournament tid db ≡ none
      → length buf ≡ 32
      → All (λ x. x < 256) buf
      → IsRegistered tid st (generate_manage_token buf) stored_db
  unfolding init_record init_bracket
  stored_db-IsRegistered t starts free long bytes = record {
    rec = stored_record;
    organizer =
        manage_token-organizer buf tid stored_db stored_record long bytes
          (get_tournament-stored free) refl;
    payouts = refl;
    bracket = stored_bracket;
    stored = get_bracket-stored;
    entrants = refl;
    tournament = t;
    replayed = reconstruct-launched b st t starts;
  }

module _ (env : CupEnv) (is_address : Text → Bool) (es : List SetupEvent) where
  abbrev page : SetupPage
  page = setup_after env is_address es

  page-IsRoster :
      is_fund page.step ≡ true
      → page.mode ≡ bracket
      → IsRoster TournamentFormat.single_elimination (players_of page.players_text)
  unfolding can_fund can_proceed_winners
  page-IsRoster at m =
      players_of-IsRoster page.players_text TournamentFormat.single_elimination
        no_rounds-single_elimination (many page.mode m (setup_after-can_fund env is_address es at))
    where
      many :
          (mode : Mode)
          → mode ≡ bracket
          → can_proceed_winners mode
              (players_of page.players_text)
              (winner_addresses is_address page)
              (payout_presets page.preset)
            ≡ true
          → can_proceed_winners bracket (players_of page.players_text) [] [] ≡ true
      many mode e h = cc (rw e at h)

  pub init-IsRegistered :
      (now : ℕ) (buf : List ℕ) (req : RouteRequest) (tid value : ℕ) (sponsor : Text)
      (hash : Option Text) (db : Db)
      → is_fund page.step ≡ true
      → page.mode ≡ bracket
      → body_too_large req.content_length ≡ false
      → req.tid ≡ some tid
      → get_tournament tid db ≡ none
      → length (players_of page.players_text) ≤ 1024
      → length buf ≡ 32
      → All (λ x. x < 256) buf
      → let done = init now buf req (launch_body page sponsor value hash) db in
        (done.0 ≡ json (generate_manage_token buf))
        × IsRegistered tid page (generate_manage_token buf) done.1
  init-IsRegistered now buf req tid value sponsor hash db at m small e free fit long bytes =
      let b = launch_body page sponsor value hash in
      let ok' = init-accepted now buf req tid page sponsor value hash db small e free fit in
      let i = init-Initialized now buf req tid b db e ok' in
      let read = sym i.1.read ∙ read_init-launch_body now buf req tid page sponsor value hash db in
      let same = some-injective i.1.fields (launch_fields page) read in
      let roster = page-IsRoster at m in
      (
        i.0,
        subst (IsRegistered tid page (generate_manage_token buf))
            (sym (
              i.1.result
              ∙ ap
                  (λ (f : InitFields).
                    upsert_bracket tid (init_bracket b f)
                      (save_tournament (init_record now tid buf b f) db))
                  same))
            (stored_db-IsRegistered now buf tid page b db roster.starts.0 roster.starts.1 free long
              bytes),
      )
