-- ===== src/Pages/Setup/Steps/Ready.antt =====
-- The condition under which the page shows how to fund.
use avax_build_games.Prelude.{
  ◌≡◌, refl, sym, ap, subst, ◌∙◌, Bool, true, Option, false, ◌||◌, none, some, List, [], ◌∷◌,
  Option-cases, Bool-cases, inl, inr,
}
use avax_build_games.Web.Text.{Text, is_empty_text}
use avax_build_games.Web.Http.{Attempt, returned, thrown}
use avax_build_games.Web.Store.{Mode, instant, bracket}
use avax_build_games.Client.Cup.{CupEnv}
use avax_build_games.Pages.Setup.Steps.{
  SetupStep, prize, winners, fund, SetupPage, LaunchResult, live, launch_failed, Launched, paid,
  to_manage, SetupEvent, name_typed, amount_typed, addresses_typed, players_typed, mode_chosen,
  currency_chosen, preset_chosen, next, back, back_to_setup, run_another, launch_done, can_fund,
  launch_ended, type_players, type_addresses, prize_event, winners_event, fund_event, result_event,
  step_event, control_event, setup_event, setup_after, setup_opened,
}

abbrev pub is_fund : SetupStep → Bool
is_fund prize = false
is_fund winners = false
is_fund fund = true

type_players-step :
    (m : Mode) (t : Text) (st : SetupPage) → is_fund (type_players m t st).step ≡ is_fund st.step
type_players-step bracket t st = refl
type_players-step instant t st = refl

type_addresses-step :
    (m : Mode) (t : Text) (st : SetupPage) → is_fund (type_addresses m t st).step ≡ is_fund st.step
type_addresses-step bracket t st = refl
type_addresses-step instant t st = refl

module _ (env : CupEnv) (is_address : Text → Bool) where
  -- The page is funded only with what may be funded.
  abbrev CanFund : SetupPage → Type 0
  CanFund st = is_fund st.step ≡ true → can_fund is_address st ≡ true

  prize_event-step :
      (e : SetupEvent) (st : SetupPage)
      → is_fund st.step ≡ false
      → is_fund (prize_event env is_address e st).step ≡ false
  unfolding prize_event
  prize_event-step (name_typed t) st h = h
  prize_event-step (amount_typed t) st h = h
  prize_event-step (addresses_typed t) st h = h
  prize_event-step (players_typed t) st h = h
  prize_event-step (mode_chosen m) st h = h
  prize_event-step (currency_chosen c) st h = h
  prize_event-step (preset_chosen p) st h = h
  prize_event-step next st h =
      elim (Bool-cases (is_empty_text st.name || is_empty_text st.amount)) [
        | inl e ↦ rw e h
        | inr e ↦ rw e refl
      ]
  prize_event-step back st h = h
  prize_event-step back_to_setup st h = h
  prize_event-step run_another st h = h
  prize_event-step (launch_done l) st h = h

  winners_event-CanFund :
      (e : SetupEvent) (st : SetupPage)
      → is_fund st.step ≡ false
      → CanFund (winners_event env is_address e st)
  unfolding winners_event can_fund
  winners_event-CanFund (name_typed t) st h f = cc (f, h)
  winners_event-CanFund (amount_typed t) st h f = cc (f, h)
  winners_event-CanFund (addresses_typed t) st h f =
      cc (sym (type_addresses-step st.mode t st) ∙ f, h)
  winners_event-CanFund (players_typed t) st h f = cc (sym (type_players-step st.mode t st) ∙ f, h)
  winners_event-CanFund (mode_chosen m) st h f = cc (f, h)
  winners_event-CanFund (currency_chosen c) st h f = cc (f, h)
  winners_event-CanFund (preset_chosen p) st h f = cc (f, h)
  winners_event-CanFund next st h f = elim (Bool-cases (can_fund is_address st)) [
    | inl e ↦ rw e e
    | inr e ↦ cc (h, f, e)
  ]
  winners_event-CanFund back st h f = cc f
  winners_event-CanFund back_to_setup st h f = cc (f, h)
  winners_event-CanFund run_another st h f = cc (f, h)
  winners_event-CanFund (launch_done l) st h f = cc (f, h)

  fund_event-CanFund :
      (e : SetupEvent) (st : SetupPage) → CanFund st → CanFund (fund_event env is_address e st)
  unfolding fund_event can_fund
  fund_event-CanFund (name_typed t) st h f = h f
  fund_event-CanFund (amount_typed t) st h f = h f
  fund_event-CanFund (addresses_typed t) st h f = h f
  fund_event-CanFund (players_typed t) st h f = h f
  fund_event-CanFund (mode_chosen m) st h f = h f
  fund_event-CanFund (currency_chosen c) st h f = h f
  fund_event-CanFund (preset_chosen p) st h f = h f
  fund_event-CanFund next st h f = h f
  fund_event-CanFund back st h f = cc f
  fund_event-CanFund back_to_setup st h f = h f
  fund_event-CanFund run_another st h f = h f
  fund_event-CanFund (launch_done l) st h f = h f

  result_event-CanFund :
      (r : LaunchResult) (e : SetupEvent) (st : SetupPage)
      → CanFund st
      → CanFund (result_event env is_address r e st)
  unfolding result_event can_fund
  result_event-CanFund (live tid hash ws url) (name_typed t) st h f = h f
  result_event-CanFund (live tid hash ws url) (amount_typed t) st h f = h f
  result_event-CanFund (live tid hash ws url) (addresses_typed t) st h f = h f
  result_event-CanFund (live tid hash ws url) (players_typed t) st h f = h f
  result_event-CanFund (live tid hash ws url) (mode_chosen m) st h f = h f
  result_event-CanFund (live tid hash ws url) (currency_chosen c) st h f = h f
  result_event-CanFund (live tid hash ws url) (preset_chosen p) st h f = h f
  result_event-CanFund (live tid hash ws url) next st h f = h f
  result_event-CanFund (live tid hash ws url) back st h f = h f
  result_event-CanFund (live tid hash ws url) back_to_setup st h f = h f
  result_event-CanFund (live tid hash ws url) run_another st h f = cc f
  result_event-CanFund (live tid hash ws url) (launch_done l) st h f = h f
  result_event-CanFund (launch_failed x) (name_typed t) st h f = h f
  result_event-CanFund (launch_failed x) (amount_typed t) st h f = h f
  result_event-CanFund (launch_failed x) (addresses_typed t) st h f = h f
  result_event-CanFund (launch_failed x) (players_typed t) st h f = h f
  result_event-CanFund (launch_failed x) (mode_chosen m) st h f = h f
  result_event-CanFund (launch_failed x) (currency_chosen c) st h f = h f
  result_event-CanFund (launch_failed x) (preset_chosen p) st h f = h f
  result_event-CanFund (launch_failed x) next st h f = h f
  result_event-CanFund (launch_failed x) back st h f = h f
  result_event-CanFund (launch_failed x) back_to_setup st h f = h f
  result_event-CanFund (launch_failed x) run_another st h f = h f
  result_event-CanFund (launch_failed x) (launch_done l) st h f = h f

  launch_ended-CanFund :
      (l : Attempt Launched) (st : SetupPage) → CanFund st → CanFund (launch_ended env l st)
  unfolding launch_ended can_fund
  launch_ended-CanFund (thrown x) st h = h
  launch_ended-CanFund (returned (paid tid hash ws)) st h = h
  launch_ended-CanFund (returned (to_manage tid token)) st h = h

  step_event-CanFund :
      (s : SetupStep) (e : SetupEvent) (st : SetupPage)
      → st.step ≡ s
      → CanFund st
      → CanFund (step_event env is_address s e st)
  unfolding step_event
  step_event-CanFund prize e st at h f = cc (sym (prize_event-step e st (rw at refl)) ∙ f)
  step_event-CanFund winners e st at h f = winners_event-CanFund e st (rw at refl) f
  step_event-CanFund fund e st at h f = fund_event-CanFund e st h f

  control_event-shown :
      (e : SetupEvent) (st : SetupPage) (r : Option LaunchResult)
      → st.result ≡ r
      → control_event env is_address e st ≡ (elim r [
        | none ↦ step_event env is_address st.step e st
        | some x ↦ result_event env is_address x e st
      ])
  unfolding control_event
  control_event-shown e st r h =
      ap
        (λ (o : Option LaunchResult). elim o [
          | none ↦ step_event env is_address st.step e st
          | some x ↦ result_event env is_address x e st
        ])
        h

  control_event-CanFund :
      (e : SetupEvent) (st : SetupPage) → CanFund st → CanFund (control_event env is_address e st)
  unfolding control_event
  control_event-CanFund e st h = elim (Option-cases st.result) [
    | inl r ↦
        subst CanFund (sym (control_event-shown e st none r))
          (step_event-CanFund st.step e st refl h)
    | inr (x, r) ↦
        subst CanFund (sym (control_event-shown e st (some x) r)) (result_event-CanFund x e st h)
  ]

  setup_event-CanFund :
      (e : SetupEvent) (st : SetupPage) → CanFund st → CanFund (setup_event env is_address e st)
  unfolding setup_event
  setup_event-CanFund (launch_done l) st h = launch_ended-CanFund l st h
  setup_event-CanFund (name_typed t) st h = control_event-CanFund (name_typed t) st h
  setup_event-CanFund (amount_typed t) st h = control_event-CanFund (amount_typed t) st h
  setup_event-CanFund (addresses_typed t) st h = control_event-CanFund (addresses_typed t) st h
  setup_event-CanFund (players_typed t) st h = control_event-CanFund (players_typed t) st h
  setup_event-CanFund (mode_chosen m) st h = control_event-CanFund (mode_chosen m) st h
  setup_event-CanFund (currency_chosen c) st h = control_event-CanFund (currency_chosen c) st h
  setup_event-CanFund (preset_chosen p) st h = control_event-CanFund (preset_chosen p) st h
  setup_event-CanFund next st h = control_event-CanFund next st h
  setup_event-CanFund back st h = control_event-CanFund back st h
  setup_event-CanFund back_to_setup st h = control_event-CanFund back_to_setup st h
  setup_event-CanFund run_another st h = control_event-CanFund run_another st h

  -- Whatever has happened on the page: at the step "Fund" there are two players at least in the
  -- bracket mode, and in the instant mode as many winner addresses as placements.
  pub setup_after-can_fund :
      (es : List SetupEvent)
      → is_fund (setup_after env is_address es).step ≡ true
      → can_fund is_address (setup_after env is_address es) ≡ true
  unfolding setup_after setup_opened
  setup_after-can_fund [] h = cc h
  setup_after-can_fund (e ∷ es) h =
      setup_event-CanFund e (setup_after env is_address es) (setup_after-can_fund es) h
