-- ===== src/Web/Accepted.antt =====
-- What comes with an accepted answer of a route, stage by stage: a lemma on a stage stays shut until
-- the answer of the last stage is known.
use avax_build_games.Prelude.{◌≡◌, sym, ◌∙◌, true, false}
use avax_build_games.Web.Http.{Response, accepted}

module _ {ℓ κ μ} {A : Type ℓ} {S : Type κ} (P : Response A × S → Type μ) where
  -- If the answer is accepted, `P` holds of it and of what is stored.
  pub OnAccepted : Response A × S → Type μ
  OnAccepted answer = accepted answer.0 ≡ true → P answer

  pub refused : (answer : Response A × S) → accepted answer.0 ≡ false → OnAccepted answer
  unfolding OnAccepted
  refused answer bad good = cc (sym bad ∙ good)

  pub granted :
      (answer : Response A × S) → (accepted answer.0 ≡ true → P answer) → OnAccepted answer
  unfolding OnAccepted
  granted answer h = h

  pub on_accepted :
      (answer : Response A × S) → OnAccepted answer → accepted answer.0 ≡ true → P answer
  unfolding OnAccepted
  on_accepted answer h = h
