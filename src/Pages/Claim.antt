-- ===== src/Pages/Claim.antt =====
-- web/src/app/claim/page.tsx: a winner pulls a prize, with the wallet of the browser or with a key. The
-- ids that BigInt reads are natural numbers, a signer is its address, and it has a provider.
pub mod Claimed
use avax_build_games.Prelude.{
  ℕ, ◌-◌, ◌||◌, ◌&&◌, Bool, true, false, not, Option, none, some, List, [], ◌∷◌, length, ◌==◌,
  if◌then◌else◌,
}
use avax_build_games.Web.Text.{Text, codes, starts_with, is_empty_text}
use avax_build_games.Web.Http.{Attempt, returned, thrown}
use avax_build_games.Web.Attempt.{◌>>=◌}
use avax_build_games.Client.Cup.{CupEnv, Injected, connect_wallet}

pub data ClaimMode : Type 0 where
  wallet key : ClaimMode

pub data ClaimStatus : Type 0 where
  idle claiming done error : ClaimStatus

pub record ClaimPage : Type 0 where
  pub tournament_id : Text
  pub placement : Text
  pub mode : ClaimMode
  pub private_key : Text
  pub status : ClaimStatus
  pub tx_hash : Option Text
  pub payout : Option Text
  pub message : Option Text

-- What the page asks of ethers and of the chain; the balance is asked before and after.
pub record Chain : Type 0 where
  pub big_int : Text → Attempt ℕ
  pub get_signer : Attempt Text
  pub key_signer : Text → Attempt Text
  pub get_address : Text → Attempt Text
  pub balance_before : Text → Attempt ℕ
  pub claim_prize : Text → ℕ → ℕ → Attempt (Option Text)
  pub balance_after : Text → Attempt ℕ
  pub format_ether : ℕ → Text

-- useSearchParams: the fields `tid` and `place`
unfoldable pub claim_opened : Option Text → Option Text → ClaimPage
claim_opened tid place = record {
  tournament_id = elim tid [ none ↦ [] | some t ↦ t ];
  placement = elim place [ none ↦ codes "0" | some p ↦ p ];
  mode = wallet;
  private_key = [];
  status = idle;
  tx_hash = none;
  payout = none;
  message = none;
}

unfoldable pub is_key : Text → Bool
is_key k = starts_with (codes "0x") k && length k == 66

unfoldable pub signer_of : CupEnv → Option Injected → Chain → ClaimMode → Text → Attempt Text
unfolding connect_wallet is_key
signer_of env w chain wallet k = do provider ← connect_wallet env w; chain.get_signer
signer_of env w chain key k =
    if not (is_key k)
    then thrown (codes "Enter a valid 0x-prefixed 32-byte private key.")
    else chain.key_signer k

-- The claim in a transaction, with its hash and what the balance grew by.
unfoldable pub claim_with : Chain → Text → ℕ → ℕ → Attempt (Option Text × ℕ)
claim_with chain signer tid place = do
  winner ← chain.get_address signer
  before ← chain.balance_before winner
  hash ← chain.claim_prize signer tid place
  after ← chain.balance_after winner
  returned (hash, after - before)

-- The body of `try`.
unfoldable pub try_claim : CupEnv → Option Injected → Chain → ClaimPage → Attempt (Option Text × ℕ)
unfolding signer_of claim_with
try_claim env w chain st = do
  tid ← chain.big_int st.tournament_id
  place ← chain.big_int st.placement
  signer ← signer_of env w chain st.mode st.private_key
  claim_with chain signer tid place

-- What the page sets before it.
unfoldable pub claim_started : ClaimPage → ClaimPage
claim_started st = record st { status = claiming; message = none; tx_hash = none; payout = none }

-- What the page sets after it.
unfoldable pub claim_ended : Chain → ClaimPage → Attempt (Option Text × ℕ) → ClaimPage
claim_ended chain st (thrown e) = record st { status = error; message = some e }
claim_ended chain st (returned result) = record st {
  status = done;
  tx_hash = result.0;
  payout = some (chain.format_ether result.1);
}

unfoldable pub claim : CupEnv → Option Injected → Chain → ClaimPage → ClaimPage
unfolding try_claim claim_started claim_ended
claim env w chain st = claim_ended chain (claim_started st) (try_claim env w chain st)

-- `disabled` of the button
unfoldable pub is_disabled : ClaimPage → Bool
is_disabled st = is_claiming st.status || is_empty_text st.tournament_id
  where
    is_claiming : ClaimStatus → Bool
    is_claiming claiming = true
    is_claiming s = false
