-- ===== src/Client/Cup/Network.antt =====
-- On which network connectWallet lets the page go on.
use avax_build_games.Prelude.{ℕ, ◌≡◌, ◌≢◌, sym, some, ◌==◌, Bool-cases, ==_iff, inl, inr, ◌⊎◌, ◌∙◌}
use avax_build_games.Web.Text.{Text, codes}
use avax_build_games.Web.Http.{Attempt, returned-injective, returned, thrown}
use avax_build_games.Web.Attempt.{Attempt-cases}
use avax_build_games.Client.Cup.{
  CupEnv, fuji_chain_id, Injected, add_unknown, recheck, switch_network, connect_wallet,
}

-- The last network that was looked at is Fuji, and the provider is on it.
pub record IsOnFuji (env : CupEnv) (w : Injected) (chain : ℕ) : Type 0 where
  pub fuji : chain ≡ fuji_chain_id env
  pub seen : (w.chain_before ≡ chain) ⊎ (w.chain_after ≡ chain)
  pub allowed : (account : Text) × (w.request_accounts ≡ returned account)

recheck-fuji :
    (env : CupEnv) (w : Injected) (x : Attempt Text) (chain : ℕ)
    → recheck env w x ≡ returned chain
    → (chain ≡ fuji_chain_id env) × (w.chain_after ≡ chain)
unfolding recheck
recheck-fuji env w (thrown e) chain h = cc
recheck-fuji env w (returned x) chain h = elim (Bool-cases (w.chain_after == fuji_chain_id env)) [
  | inr e ↦ cc (rw e at h)
  | inl e ↦
      let same = returned-injective w.chain_after chain (rw e at h) in
      (sym same ∙ (==_iff w.chain_after (fuji_chain_id env)).0 e, same)
]

-- When connectWallet returns, the wallet has let the page see its accounts, and the network that it
-- was on, or the one after the request to switch or to add, is the configured one.
pub connect_wallet-IsOnFuji :
    (env : CupEnv) (w : Injected) (chain : ℕ)
    → connect_wallet env (some w) ≡ returned chain
    → IsOnFuji env w chain
unfolding connect_wallet switch_network
connect_wallet-IsOnFuji env w chain h = elim (Attempt-cases w.request_accounts) [
  | inr (e, accounts) ↦ cc (rw accounts at h)
  | inl (account, accounts) ↦ elim (Bool-cases (w.chain_before == fuji_chain_id env)) [
    | inl e ↦
        let same = returned-injective w.chain_before chain (rw (accounts, e) at h) in
        record {
          fuji = sym same ∙ (==_iff w.chain_before (fuji_chain_id env)).0 e;
          seen = inl same;
          allowed = (account, accounts);
        }
    | inr e ↦
        let both =
          recheck-fuji env w (add_unknown env w (w.switch_chain (codes "0xA869"))) chain
            (rw (accounts, e) at h) in
        record { fuji = both.0; seen = inr both.1; allowed = (account, accounts) }
  ]
]

-- The network that the wallet is asked for is Fuji's, whatever the configured chain is: with another
-- chain configured, a wallet that does as it is asked is refused.
pub connect_wallet_other_chain :
    (env : CupEnv) (w : Injected)
    → w.chain_before ≢ fuji_chain_id env
    → w.chain_after ≡ 43113
    → fuji_chain_id env ≢ 43113
    → (chain : ℕ) → connect_wallet env (some w) ≢ returned chain
connect_wallet_other_chain env w before after other chain h =
    let on = connect_wallet-IsOnFuji env w chain h in
    let fuji = on.fuji in
    elim on.seen [ inl e ↦ before (e ∙ fuji) | inr e ↦ other (sym (sym after ∙ e ∙ fuji)) ]
