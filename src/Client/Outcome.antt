-- ===== src/Client/Outcome.antt =====
-- reportOutcome of amp.ts in web/src/lib.
use avax_build_games.Prelude.{Option, none, some, [], ◌∷◌, ◌++◌}
use avax_build_games.Web.Text.{Text, codes}
use avax_build_games.Web.Http.{Attempt, returned, thrown, truthy_text}
use avax_build_games.Client.Session.{LocalStorage, Session, stored_session}
use avax_build_games.Client.Api.{
  Fields, ApiCall, FetchRequest, FetchReply, Sdk, Ethereum, api, to_utf8_hex,
}

unfoldable pub outcome_message : Text → Text → Text
outcome_message match_id result = codes "AMP_REPORT:v1:" ++ match_id ++ codes ":" ++ result

-- A field, where there is a value.
field : Text → Option Text → Fields
field name none = []
field name (some value) = (name, value) ∷ []

signature_of : Attempt Text → Option Text
signature_of (thrown e) = none
signature_of (returned s) = some s

-- Signed if there are a wallet and a session and the user does not decline.
unfoldable pub outcome_signature : Option Ethereum → Option Session → Text → Option Text
unfolding to_utf8_hex signature_of
outcome_signature none session message = none
outcome_signature (some eth) none message = none
outcome_signature (some eth) (some s) message =
    signature_of (eth.personal_sign (to_utf8_hex message) s.wallet)

unfoldable pub outcome_call : Option Ethereum → Option Session → Text → Text → Option Text → ApiCall
unfolding outcome_message field outcome_signature
outcome_call eth session match_id result transcript_hash = record {
  path = codes "/v1/matches/" ++ match_id ++ codes "/report";
  method = some (codes "POST");
  body = some (
      (codes "result", result)
      ∷ (field (codes "transcriptHash") (truthy_text transcript_hash)
          ++ field (codes "signature")
              (outcome_signature eth session (outcome_message match_id result))));
  auth = none;
}

unfoldable pub report_outcome {ℓ} :
    {A : Type ℓ}
    → (FetchRequest → FetchReply A)
    → Text
    → LocalStorage
    → Option Ethereum
    → Text
    → Text
    → Option Text
    → Sdk A
unfolding api outcome_call stored_session
report_outcome fetch server storage eth match_id result transcript_hash =
    api fetch server storage
      (outcome_call eth (stored_session storage) match_id result transcript_hash)
