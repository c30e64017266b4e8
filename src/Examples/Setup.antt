-- ===== src/Examples/Setup.antt =====
-- Runs of the setup page, and instances of its theorems.
use avax_build_games.Prelude.{
  ◌≡◌, refl, ap, true, false, Bool, Option, none, some, List, [], ◌∷◌, length, lookup, arith, leb,
}
use avax_build_games.Web.Text.{Text, codes}
use avax_build_games.Web.Http.{Attempt, returned, Response, accepted, json, body_too_large}
use avax_build_games.Web.Store.{bracket, get_tournament}
use avax_build_games.Web.Paypal.{VerifiedOrder, verify_order}
use avax_build_games.Web.Capture.{capture, is_completable}
use avax_build_games.Web.Init.{init}
use avax_build_games.Client.Wallet.{parse_address_list}
use avax_build_games.Client.Cup.{payout_presets}
use avax_build_games.Pages.Setup.{players_of, can_proceed_winners}
use avax_build_games.Pages.Setup.Steps.{
  SetupEvent, mode_chosen, addresses_typed, next, setup_after, can_fund, SetupPage,
}
use avax_build_games.Pages.Setup.Steps.Ready.{is_fund, setup_after-can_fund}
use avax_build_games.Pages.Setup.Launch.{CupChain, launch_body, launch_avax, setup_capture}
use avax_build_games.Pages.Setup.Registered.{IsRegistered}
use avax_build_games.Pages.Setup.Launching.{launch_avax-IsRegistered}
use avax_build_games.Pages.Setup.Paid.{setup_capture-accepted}
use avax_build_games.Examples.Client.{cup_env, injected, injected-connected}
use avax_build_games.Examples.Web.{empty_db}
use avax_build_games.Examples.Routes.{routes, bytes, bytes-IsSmall, open_request}
use avax_build_games.Examples.Payments.{env, paypal, payments}

abbrev any_address : Text → Bool
any_address s = true

-- The steps to the funding of a bracket with the players that the page opens with.
abbrev bracket_events : List SetupEvent
bracket_events = next ∷ next ∷ mode_chosen bracket ∷ []

abbrev bracket_page : SetupPage
bracket_page = setup_after cup_env any_address bracket_events

-- The same for three winners that are paid at once.
abbrev instant_events : List SetupEvent
instant_events = next ∷ addresses_typed (codes "0xa 0xb, 0xc") ∷ next ∷ []

unfoldable setup : Unit {0}
unfolding setup_after can_fund can_proceed_winners players_of payout_presets parse_address_list
setup = tt

bracket_page-ready :
    (is_fund bracket_page.step ≡ true)
    × (bracket_page.mode ≡ bracket)
    × (leb (length (players_of bracket_page.players_text)) 4 ≡ true)
unfolding setup
bracket_page-ready = (refl, refl, refl)

instant_page-ready : is_fund (setup_after cup_env any_address instant_events).step ≡ true
unfolding setup
instant_page-ready = refl

setup_after-can_fund_example : can_fund any_address bracket_page ≡ true
setup_after-can_fund_example =
    setup_after-can_fund cup_env any_address bracket_events bracket_page-ready.0

-- What the page reads of the route's answer.
abbrev token_of : Response Text → Attempt (Option Text)
token_of (json token) = returned (some token)
token_of (Response.json_error status message) = returned none
token_of (Response.text_error status message) = returned none
token_of (Response.threw e) = returned none
token_of Response.crashed = returned none

abbrev chain : CupChain
chain = record {
  signer_address = returned (codes "0xAb");
  parse_ether = λ amount. returned 5;
  create_tournament = λ call. returned (some (codes "0x99"));
  next_tournament_id = returned 8;
  get_address = λ address. returned address;
  sign = λ typed. returned (codes "0x01");
  finalize_tournament = λ call. returned none;
  fetch_init = λ tid body. token_of (init 5000 bytes open_request body empty_db).0;
}

request_small : body_too_large open_request.content_length ≡ false
unfolding routes
request_small = refl

no_tournament : get_tournament 7 empty_db ≡ none
unfolding routes
no_tournament = refl

launch_avax-IsRegistered_example :
    let body = launch_body bracket_page (codes "0xAb") 5 (some (codes "0x99")) in
    let ended = launch_avax cup_env any_address chain (some injected) 4000 bracket_page in
    (token : Text) × (ended.route ≡ some 7)
    × (lookup 7 ended.kept ≡ some token)
    × IsRegistered 7 bracket_page token (init 5000 bytes open_request body empty_db).1
launch_avax-IsRegistered_example =
    launch_avax-IsRegistered cup_env any_address bracket_events chain (some injected) 4000 43113 5 7
      (codes "0xAb") (some (codes "0x99")) 5000 bytes open_request empty_db bracket_page-ready.0
      bracket_page-ready.1 (ground (arith, bracket_page-ready.2)) injected-connected refl refl refl
      refl (λ token h. ap token_of h) request_small refl no_tournament refl bytes-IsSmall

-- The order that PayPal confirms.
abbrev order : VerifiedOrder
order = record {
  id = codes "5O19";
  status = codes "APPROVED";
  amount_usd = some (record { digits = 2550; scale = 2 });
  custom_id = none;
}

order-verified : (verify_order env paypal 0 (codes "5O19") none).0 ≡ returned order
unfolding payments
order-verified = refl

order-completable : is_completable order.status ≡ true
unfolding payments
order-completable = refl

setup_capture-accepted_example :
    let body =
      setup_capture any_address (codes "5O19") (setup_after cup_env any_address instant_events) in
    accepted (capture env paypal 0 [] 300 body none empty_db).0.0 ≡ true
setup_capture-accepted_example =
    setup_capture-accepted env paypal 0 [] cup_env any_address instant_events (codes "5O19") order
      300 none empty_db instant_page-ready refl request_small order-verified order-completable
