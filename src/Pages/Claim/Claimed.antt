-- ===== src/Pages/Claim/Claimed.antt =====
-- What a claim that ends as done has sent.
use avax_build_games.Prelude.{
  ℕ, ◌≡◌, refl, sym, ap, subst, ◌∙◌, inl, inr, true, Option, none, some, Bool-cases,
}
use avax_build_games.Web.Text.{Text}
use avax_build_games.Web.Http.{returned, thrown, returned-injective}
use avax_build_games.Web.Attempt.{Attempt-cases, bind-returned}
use avax_build_games.Client.Cup.{CupEnv, Injected, connect_wallet}
use avax_build_games.Client.Cup.Network.{IsOnFuji, connect_wallet-IsOnFuji}
use avax_build_games.Pages.Claim.{
  ClaimPage, ClaimMode, Chain, wallet, key, done, is_key, signer_of, claim_with, try_claim,
  claim_started, claim_ended, claim,
}

-- By what the claim may be signed, and the signer that ethers gives for it.
abbrev pub SignsWith : CupEnv → Option Injected → Chain → ClaimMode → Text → Text → Type 0
SignsWith env w chain wallet k signer =
    (i : Injected) × (n : ℕ) × (w ≡ some i)
    × IsOnFuji env i n
    × (chain.get_signer ≡ returned signer)
SignsWith env w chain key k signer = (is_key k ≡ true) × (chain.key_signer k ≡ returned signer)

signer_of-SignsWith :
    (env : CupEnv) (w : Option Injected) (chain : Chain) (mode : ClaimMode) (k signer : Text)
    → signer_of env w chain mode k ≡ returned signer
    → SignsWith env w chain mode k signer
unfolding signer_of
signer_of-SignsWith env none chain wallet k signer h = unfold connect_wallet in cc
signer_of-SignsWith env (some i) chain wallet k signer h =
    let (n, e, signs) = bind-returned (connect_wallet env (some i)) _ signer h in
    (i, n, refl, connect_wallet-IsOnFuji env i n e, signs)
signer_of-SignsWith env w chain key k signer h = elim (Bool-cases (is_key k)) [
  | inl e ↦ (e, rw e at h)
  | inr e ↦ cc (rw e at h)
]

-- The transaction of a claim: by whom, for what, and its hash.
pub record Claimed (env : CupEnv) (w : Option Injected) (chain : Chain) (st after : ClaimPage)
    : Type 0 where
  pub tid : ℕ
  pub place : ℕ
  pub reads_tid : chain.big_int st.tournament_id ≡ returned tid
  pub reads_place : chain.big_int st.placement ≡ returned place
  pub signer : Text
  pub signs : SignsWith env w chain st.mode st.private_key signer
  pub sent : chain.claim_prize signer tid place ≡ returned after.tx_hash

claim_with-sent :
    (chain : Chain) (signer : Text) (tid place : ℕ) (result : Option Text × ℕ)
    → claim_with chain signer tid place ≡ returned result
    → chain.claim_prize signer tid place ≡ returned result.0
unfolding claim_with
claim_with-sent chain signer tid place result h =
    let (winner, e, h') = bind-returned (chain.get_address signer) _ result h in
    let (before, e', h'') = bind-returned (chain.balance_before winner) _ result h' in
    let (hash, sent, h3) = bind-returned (chain.claim_prize signer tid place) _ result h'' in
    let (after, e3, h4) = bind-returned (chain.balance_after winner) _ result h3 in
    sent ∙ ap returned (ap (λ (r : Option Text × ℕ). r.0) (returned-injective _ result h4))

try_claim-Claimed :
    (env : CupEnv) (w : Option Injected) (chain : Chain) (st now : ClaimPage)
    (result : Option Text × ℕ)
    → try_claim env w chain st ≡ returned result
    → Claimed env w chain st (claim_ended chain now (returned result))
unfolding try_claim claim_ended
try_claim-Claimed env w chain st now result e =
    let (tid, reads_tid, h1) = bind-returned (chain.big_int st.tournament_id) _ result e in
    let (place, reads_place, h2) = bind-returned (chain.big_int st.placement) _ result h1 in
    let (signer, by, h3) =
      bind-returned (signer_of env w chain st.mode st.private_key) _ result h2 in
    record {
      tid = tid;
      place = place;
      reads_tid = reads_tid;
      reads_place = reads_place;
      signer = signer;
      signs = signer_of-SignsWith env w chain st.mode st.private_key signer by;
      sent = claim_with-sent chain signer tid place result h3;
    }

claim_ended-thrown :
    (chain : Chain) (st : ClaimPage) (e : Text)
    → (claim_ended chain st (thrown e)).status ≡ done
    → ⊥
unfolding claim_ended
claim_ended-thrown chain st e h = cc

-- When the page ends a claim as done: BigInt has read the tournament and the placement; the signer is
-- the one of the wallet, which is on the configured network, or in the mode "key" the one that ethers
-- makes of the key, which has 66 characters from 0x on; and the call of claimPrize by this signer for
-- this tournament and placement returned the hash that the page shows.
pub claim-Claimed :
    (env : CupEnv) (w : Option Injected) (chain : Chain) (st : ClaimPage)
    → (claim env w chain st).status ≡ done
    → Claimed env w chain st (claim env w chain st)
unfolding claim
claim-Claimed env w chain st h =
    let started = claim_started st in
    elim (Attempt-cases (try_claim env w chain st)) [
      | inr (x, e) ↦ absurd (
          claim_ended-thrown chain started x
            (sym (ap (λ r. (claim_ended chain started r).status) e) ∙ h))
      | inl (result, e) ↦
          subst (Claimed env w chain st) (sym (ap (claim_ended chain started) e))
            (try_claim-Claimed env w chain st started result e)
    ]
