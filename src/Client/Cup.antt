-- ===== src/Client/Cup.antt =====
-- ampCup.ts of web/src/lib: the prize pool's contract from the browser. The wallet is an argument.
pub mod Network
use avax_build_games.Prelude.{
  ℕ, ◌||◌, Bool, false, not, Option, none, some, List, [], ◌∷◌, ◌++◌, map, ◌==◌, if◌then◌else◌,
}
use mathlib.Core.Option.{get_or}
use avax_build_games.Web.Text.{Text, codes}
use avax_build_games.Web.Http.{Attempt, returned, thrown, truthy_text}

pub record CupEnv : Type 0 where
  pub cup_address : Option Text
  -- Number of the variable, where that is a natural number
  pub chain_id : Option ℕ
  pub rpc_url : Option Text
  pub explorer_url : Option Text

unfoldable pub cup_address : CupEnv → Text
cup_address env =
    get_or (truthy_text env.cup_address) (codes "0x7c743c1c9ae3e7a65d030098f2249b7787d66dff")

unfoldable pub fuji_chain_id : CupEnv → ℕ
fuji_chain_id env = get_or env.chain_id 43113

unfoldable pub fuji_rpc : CupEnv → Text
fuji_rpc env = get_or (truthy_text env.rpc_url) (codes "https://api.avax-test.network/ext/bc/C/rpc")

unfoldable pub explorer_url : CupEnv → Text
explorer_url env = get_or (truthy_text env.explorer_url) (codes "https://testnet.snowtrace.io")

pub record Eip712Domain : Type 0 where
  pub name : Text
  pub version : Text
  pub chain_id : ℕ
  pub verifying_contract : Text

unfoldable pub eip712_domain : CupEnv → Eip712Domain
unfolding cup_address fuji_chain_id
eip712_domain env = record {
  name = codes "AMPTournamentCup";
  version = codes "1";
  chain_id = fuji_chain_id env;
  verifying_contract = cup_address env;
}

-- The keys of PAYOUT_PRESETS.
pub data Preset : Type 0 where
  winner_takes_all top2 top3 top4 : Preset

-- The basis points of each of them.
unfoldable pub payout_presets : Preset → List ℕ
payout_presets winner_takes_all = 10000 ∷ []
payout_presets top2 = 7000 ∷ 3000 ∷ []
payout_presets top3 = 6000 ∷ 3000 ∷ 1000 ∷ []
payout_presets top4 = 5000 ∷ 2500 ∷ 1500 ∷ 1000 ∷ []

pub record TypedData : Type 0 where
  pub domain : Eip712Domain
  pub tournament_id : ℕ
  pub winners : List Text

-- ethers.getAddress of each, the first that throws first.
unfoldable pub get_addresses : (Text → Attempt Text) → List Text → Attempt (List Text)
get_addresses get_address [] = returned []
get_addresses get_address (w ∷ ws) =
    let rest = get_addresses get_address ws in
    elim (get_address w) [
      | thrown e ↦ thrown e
      | returned a ↦ elim rest [ thrown e ↦ thrown e | returned as' ↦ returned (a ∷ as') ]
    ]

-- The signer is signTypedData.
unfoldable pub sign_finalize :
    CupEnv → (Text → Attempt Text) → (TypedData → Attempt Text) → ℕ → List Text → Attempt Text
unfolding get_addresses eip712_domain
sign_finalize env get_address sign tournament_id winners =
    elim (get_addresses get_address winners) [
      | thrown e ↦ thrown e
      | returned addresses ↦ sign (record {
        domain = eip712_domain env;
        tournament_id = tournament_id;
        winners = addresses;
      })
    ]

-- The code of an error, by its sign.
pub data ErrorCode : Type 0 where
  positive negative : ℕ → ErrorCode

-- The answer to wallet_switchEthereumChain.
pub data SwitchReply : Type 0 where
  switched : SwitchReply
  switch_failed : Option ErrorCode → Option Text → SwitchReply

-- wallet_addEthereumChain
pub record ChainParams : Type 0 where
  pub chain_id : Text
  pub rpc_url : Text
  pub explorer_url : Text

-- The wallet, with the chain that it is on at first and after the request to switch or to add.
pub record Injected : Type 0 where
  pub request_accounts : Attempt Text
  pub chain_before : ℕ
  pub switch_chain : Text → SwitchReply
  pub add_chain : ChainParams → Attempt Text
  pub chain_after : ℕ

is_unknown_chain : Option ErrorCode → Bool
is_unknown_chain none = false
is_unknown_chain (some (positive n)) = n == 4902
is_unknown_chain (some (negative n)) = n == 32603

-- After the request to switch: whether the chain is looked at again.
unfoldable pub add_unknown : CupEnv → Injected → SwitchReply → Attempt Text
unfolding is_unknown_chain fuji_rpc explorer_url
add_unknown env w switched = returned []
add_unknown env w (switch_failed code message) =
    if is_unknown_chain code
    then w.add_chain (record {
      chain_id = codes "0xA869";
      rpc_url = fuji_rpc env;
      explorer_url = explorer_url env;
    })
    else thrown
        (codes "Could not switch to Fuji testnet: " ++ get_or message (codes "unknown error"))

-- The re-check after the switch.
unfoldable pub recheck : CupEnv → Injected → Attempt Text → Attempt ℕ
unfolding fuji_chain_id
recheck env w (thrown e) = thrown e
recheck env w (returned x) =
    if not (w.chain_after == fuji_chain_id env)
    then thrown (codes "Please switch your wallet to the Avalanche Fuji testnet and try again.")
    else returned w.chain_after

unfoldable pub switch_network : CupEnv → Injected → Attempt ℕ
unfolding fuji_chain_id add_unknown recheck
switch_network env w =
    if not (w.chain_before == fuji_chain_id env)
    then recheck env w (add_unknown env w (w.switch_chain (codes "0xA869")))
    else returned w.chain_before

-- The provider is given by the chain that it is on.
unfoldable pub connect_wallet : CupEnv → Option Injected → Attempt ℕ
unfolding switch_network
connect_wallet env none = thrown (codes "No wallet found. Install the Core or MetaMask wallet.")
connect_wallet env (some w) = elim w.request_accounts [
  | thrown e ↦ thrown e
  | returned account ↦ switch_network env w
]
