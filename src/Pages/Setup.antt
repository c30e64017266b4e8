-- ===== src/Pages/Setup.antt =====
-- web/src/app/setup/page.tsx: the players that are read from the text, the checks of the steps, and
-- the wait for the funded tournament.
pub mod Roster
pub mod Steps
pub mod Launch
pub mod Registered
pub mod Launching
pub mod Paid
use mathlib.Core.Option.{get_or}
use avax_build_games.Prelude.{
  ℕ, zero, suc, ◌+◌, ◌-◌, Bool, true, false, not, ◌&&◌, Option, none, some, List, [], ◌∷◌, ◌++◌,
  map, filter, length, replicate, leb, ◌==◌, if◌then◌else◌,
}
use avax_build_games.Web.Text.{Text, codes, is_empty_text, starts_with, trim}
use avax_build_games.Web.Token.{to_hex}
use avax_build_games.Web.Http.{Attempt, returned, thrown, truthy_text}
use avax_build_games.Web.Store.{Player, Mode, instant, bracket, JobStatus, pending, done, failed}
use avax_build_games.Client.Wallet.{prepend}

-- s.split(separator), for one character
unfoldable pub split : ℕ → Text → List Text
split separator [] = [] ∷ []
split separator (c ∷ s) =
    let rest = split separator s in if c == separator then [] ∷ rest else prepend c rest

-- The first two parts of a line, which has one at least.
abbrev pub second_part : List Text → Option Text
second_part [] = none
second_part (name ∷ []) = none
second_part (name ∷ wallet ∷ parts) = some wallet

abbrev pub first_part : List Text → Text
first_part [] = []
first_part (name ∷ parts) = name

-- rawWallet ?? rawName
abbrev pub wallet_part : List Text → Text
wallet_part parts = get_or (second_part parts) (first_part parts)

unfoldable pub is_address_text : Text → Bool
is_address_text wallet = starts_with (codes "0x") wallet && leb 6 (length wallet)

-- s.padStart(40, "0")
unfoldable pub pad_forty : Text → Text
pad_forty s = replicate (40 - length s) b'0' ++ s

-- The wallet of a line without one.
unfoldable pub placeholder_wallet : ℕ → Text
unfolding pad_forty
placeholder_wallet i = codes "0x" ++ pad_forty (to_hex (i + 1))

unfoldable pub player_of : ℕ → Text → Player
unfolding split trim is_address_text
player_of i line =
    let parts = map trim (split b',' line) in
    let wallet = trim (wallet_part parts) in
    record {
      id = i;
      wallet = if is_address_text wallet then wallet else placeholder_wallet i;
      name = first_part parts;
      seed = i + 1;
    }

unfoldable pub players_from : ℕ → List Text → List Player
unfolding player_of
players_from i [] = []
players_from i (line ∷ lines) = player_of i line ∷ players_from (suc i) lines

-- `players`: a player for each line that is not blank.
unfoldable pub players_of : Text → List Player
unfolding players_from trim split
players_of text = players_from 0 (filter (λ l. not (is_empty_text l)) (map trim (split 10 text)))

-- `canProceedWinners`
unfoldable pub can_proceed_winners : Mode → List Player → List Text → List ℕ → Bool
can_proceed_winners bracket players winner_wallets bps = leb 2 (length players)
can_proceed_winners instant players winner_wallets bps = length winner_wallets == length bps

-- What one request of the job's route gives.
pub record FundReply : Type 0 where
  pub status : Option JobStatus
  pub tournament_id : Option ℕ
  pub error : Option Text

-- `count` more requests, from the one with the number `i`. What each of them gives is an argument.
unfoldable pub poll_from : ℕ → ℕ → (ℕ → Attempt FundReply) → Attempt (Option ℕ)
poll_from zero i replies = returned none
poll_from (suc count) i replies =
    let rest = poll_from count (suc i) replies in
    elim (replies i) [
      | thrown e ↦ thrown e
      | returned r ↦ elim r.status [
        | none ↦ rest
        | some s ↦ elim s [
          | pending ↦ rest
          | done ↦ returned r.tournament_id
          | failed ↦ thrown (get_or (truthy_text r.error) (codes "relayer job failed"))
        ]
      ]
    ]

-- `pollJobForTournament`
unfoldable pub poll_job : Option ℕ → (ℕ → Attempt FundReply) → Attempt (Option ℕ)
unfolding poll_from
poll_job none replies = returned none
poll_job (some job_id) replies = if job_id == 0 then returned none else poll_from 60 0 replies
