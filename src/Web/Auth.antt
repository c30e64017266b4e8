-- ===== src/Web/Auth.antt =====
-- auth.ts of web/src/lib: the check of an organizer's bearer token.
pub mod Compare
pub mod Bearer
pub mod Organizer
use avax_build_games.Prelude.{
  ℕ, zero, suc, ◌+◌, ◌*◌, ◌/◌, ◌%◌, Bool, true, false, ◌&&◌, ◌||◌, Option, none, some, List, [],
  ◌∷◌, length, ltb, leb, ◌==◌, if◌then◌else◌, not,
}
use avax_build_games.Web.Text.{drop_prefix, trim, Text, codes, is_empty_text}
use avax_build_games.Web.Store.{Db, TournamentRecord, get_tournament}

or_empty : Option Text → Text
or_empty none = []
or_empty (some s) = s

-- auth.startsWith("Bearer ") ? auth.slice(7).trim() : "". The token of a header, which is empty where there is none.
unfoldable pub bearer_token : Option Text → Text
unfolding drop_prefix trim or_empty
bearer_token auth = trim (or_empty (drop_prefix (codes "Bearer ") (or_empty auth)))

-- `x ^ y` on integers of `w` bits
unfoldable pub bits_xor : ℕ → ℕ → ℕ → ℕ
bits_xor zero x y = 0
bits_xor (suc w) x y = (if x % 2 == y % 2 then 0 else 1) + 2 * bits_xor w (x / 2) (y / 2)

-- `x | y` on integers of `w` bits
unfoldable pub bits_or : ℕ → ℕ → ℕ → ℕ
bits_or zero x y = 0
bits_or (suc w) x y = (if x % 2 == 0 && y % 2 == 0 then 0 else 1) + 2 * bits_or w (x / 2) (y / 2)

-- The loop over the code units, of 16 bits, of two strings of one length.
unfoldable pub diff_loop : ℕ → Text → Text → ℕ
diff_loop diff [] b = diff
diff_loop diff (c ∷ a) [] = diff
diff_loop diff (c ∷ a) (d ∷ b) = diff_loop (bits_or 32 diff (bits_xor 32 c d)) a b

unfoldable pub same_token : Text → Text → Bool
unfolding diff_loop bits_or bits_xor
same_token a b = if not (length a == length b) then false else diff_loop 0 a b == 0

-- What is done once the tournament is read, with its token: `!rec?.manageToken` also holds for an
-- empty token.
unfoldable pub check_token : Option Text → Text → TournamentRecord → Option TournamentRecord
unfolding same_token
check_token none token rec = none
check_token (some b) token rec =
    if is_empty_text b then none else if same_token token b then some rec else none

unfoldable pub require_organizer : Option Text → ℕ → Db → Option TournamentRecord
unfolding bearer_token check_token get_tournament
require_organizer auth tid db =
    let token = bearer_token auth in
    if is_empty_text token || ltb (length token) 16 then none else elim (get_tournament tid db) [
      | none ↦ none
      | some rec ↦ check_token rec.manage_token token rec
    ]
