-- ===== src/Pages/Setup/Launching.antt =====
-- The launch in AVAX of a bracket, from the page to the organizer's page.
use avax_build_games.Prelude.{
  ℕ, suc, ◌*◌, ◌≤◌, ◌<◌, ◌≡◌, refl, ap, ◌∙◌, Bool, true, false, Option, none, some, List, [], ◌∷◌,
  length, All, lookup, lookup-insert, arith, ==_iff,
}
use avax_build_games.Web.Text.{Text}
use avax_build_games.Web.Http.{returned, json, truthy_text, RouteRequest, body_too_large}
use avax_build_games.Web.Attempt.{bind-of_returned}
use avax_build_games.Web.Token.{generate_manage_token}
use avax_build_games.Web.Store.{Db, Mode, bracket, get_tournament}
use avax_build_games.Web.Init.{init}
use avax_build_games.Web.Init.Guard.{length-manage_token}
use avax_build_games.Client.Cup.{CupEnv, Injected, connect_wallet}
use avax_build_games.Pages.Setup.{players_of}
use avax_build_games.Pages.Setup.Steps.{
  SetupPage, SetupEvent, setup_after, keep_token, launch_ended, to_manage,
}
use avax_build_games.Pages.Setup.Steps.Ready.{is_fund}
use avax_build_games.Pages.Setup.Launch.{
  CupChain, create_call, launch_body, launch_bracket, launch_funded, try_launch, launch_avax,
}
use avax_build_games.Pages.Setup.Registered.{IsRegistered, init-IsRegistered}

truthy_token : (t : Text) → length t ≡ 64 → truthy_text (some t) ≡ some t
truthy_token [] long = absurd (omega (arith, long))
truthy_token (c ∷ t) long = refl

module _ (env : CupEnv) (is_address : Text → Bool) (chain : CupChain) (w : Option Injected)
    (now : ℕ) (st : SetupPage) where
  launch_bracket-to_manage :
      (sponsor : Text) (value : ℕ) (hash token : Option Text) (tid : ℕ)
      → chain.fetch_init tid (launch_body st sponsor value hash) ≡ returned token
      → launch_bracket env is_address chain st sponsor value hash tid
        ≡ returned (to_manage tid token)
  unfolding launch_bracket
  launch_bracket-to_manage sponsor value hash token tid h = rw h refl

  launch_funded-bracket :
      (mode : Mode) (sponsor : Text) (value : ℕ) (hash : Option Text) (tid : ℕ)
      → mode ≡ bracket
      → launch_funded env is_address chain mode st sponsor value hash tid
        ≡ launch_bracket env is_address chain st sponsor value hash tid
  unfolding launch_funded
  launch_funded-bracket mode sponsor value hash tid m = rw m refl

  try_launch-funded :
      (network value tid : ℕ) (sponsor : Text) (hash : Option Text)
      → connect_wallet env w ≡ returned network
      → chain.signer_address ≡ returned sponsor
      → chain.parse_ether st.amount ≡ returned value
      → chain.create_tournament (create_call now st sponsor value) ≡ returned hash
      → chain.next_tournament_id ≡ returned (suc tid)
      → try_launch env is_address chain w now st
        ≡ launch_funded env is_address chain st.mode st sponsor value hash tid
  unfolding try_launch
  try_launch-funded network value tid sponsor hash c s v h n =
      bind-of_returned (connect_wallet env w) _ network c
      ∙ bind-of_returned chain.signer_address _ sponsor s
      ∙ bind-of_returned (chain.parse_ether st.amount) _ value v
      ∙ bind-of_returned (chain.create_tournament (create_call now st sponsor value)) _ hash h
      ∙ bind-of_returned chain.next_tournament_id _ (suc tid) n
      ∙ ap (launch_funded env is_address chain st.mode st sponsor value hash) (omega arith)

  launch_avax-kept :
      (tid : ℕ) (token : Text)
      → try_launch env is_address chain w now st ≡ returned (to_manage tid (some token))
      → length token ≡ 64
      → let ended = launch_avax env is_address chain w now st in
        (ended.route ≡ some tid) × (lookup tid ended.kept ≡ some token)
  unfolding launch_avax launch_ended keep_token
  launch_avax-kept tid token h long =
      rw (h, truthy_token token long)
        (refl, lookup-insert tid tid token st.kept ∙ rw ((==_iff tid tid).1 refl) refl)

-- Whatever has happened on the setup page: when it launches a bracket of at most 1024 players from the
-- step "Fund", its calls return, the request for the new id is not too large, nothing is stored under
-- the id, and the init route brings its answer, with 32 random bytes, then the page goes to the
-- organizer's page with a token that it keeps and that is let in as the organizer's; the payouts and
-- the players of the page are stored, and the stored bracket starts a tournament.
pub launch_avax-IsRegistered :
    (env : CupEnv) (is_address : Text → Bool) (es : List SetupEvent) (chain : CupChain)
    (w : Option Injected) (now network value tid : ℕ) (sponsor : Text) (hash : Option Text) (ms : ℕ)
    (buf : List ℕ) (req : RouteRequest) (db : Db)
    → let st = setup_after env is_address es in
      let done = init ms buf req (launch_body st sponsor value hash) db in
      let ended = launch_avax env is_address chain w now st in
      is_fund st.step ≡ true
      → st.mode ≡ bracket
      → length (players_of st.players_text) ≤ 1024
      → connect_wallet env w ≡ returned network
      → chain.signer_address ≡ returned sponsor
      → chain.parse_ether st.amount ≡ returned value
      → chain.create_tournament (create_call now st sponsor value) ≡ returned hash
      → chain.next_tournament_id ≡ returned (suc tid)
      → ((token : Text)
          → done.0 ≡ json token
          → chain.fetch_init tid (launch_body st sponsor value hash) ≡ returned (some token))
      → body_too_large req.content_length ≡ false
      → req.tid ≡ some tid
      → get_tournament tid db ≡ none
      → length buf ≡ 32
      → All (λ x. x < 256) buf
      → (token : Text) × (ended.route ≡ some tid)
        × (lookup tid ended.kept ≡ some token)
        × IsRegistered tid st token done.1
launch_avax-IsRegistered env is_address es chain w now network value tid sponsor hash ms buf req db
      at m fit c s v h n fetched small e free long bytes =
    let st = setup_after env is_address es in
    let token = generate_manage_token buf in
    let (answer, registered) =
      init-IsRegistered env is_address es ms buf req tid value sponsor hash db at m small e free fit
        long bytes in
    let launched =
      try_launch-funded env is_address chain w now st network value tid sponsor hash c s v h n
      ∙ launch_funded-bracket env is_address chain w now st st.mode sponsor value hash tid m
      ∙ launch_bracket-to_manage env is_address chain w now st sponsor value hash (some token) tid
          (fetched token answer) in
    let size : length token ≡ 64 = length-manage_token buf bytes ∙ ap (λ k. 2 * k) long in
    let (opened, kept) = launch_avax-kept env is_address chain w now st tid token launched size in
    (token, opened, kept, registered)
