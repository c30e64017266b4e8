-- ===== src/Engine/Swiss.antt =====
-- swiss.ts of web/src/lib/engine: the pairing of one Swiss round.
pub mod Entries
pub mod Fair
pub mod Ids
pub mod Pairs
pub mod Played
use avax_build_games.Prelude.{
  ℕ, suc, ◌+◌, ◌*◌, Bool, true, false, not, ◌&&◌, ◌||◌, Option, none, some, List, [], ◌∷◌, ◌++◌,
  length, get_or, set, replicate, range, contains, find, sort, leb, ◌==◌, if◌then◌else◌,
}
use avax_build_games.Engine.Types.{MatchId, Entrant}

pub record SwissEntry : Type 0 where
  pub entrant : Entrant
  pub wins : ℕ
  pub draws : ℕ
  pub losses : ℕ
  pub played : List ℕ

unfoldable pub new_entry : Entrant → SwissEntry
new_entry e = record { entrant = e; wins = 0; draws = 0; losses = 0; played = [] }

-- Twice `score()`, which counts a draw as a half.
unfoldable pub score_twice : SwissEntry → ℕ
score_twice e = 2 * e.wins + e.draws

-- What stands for an entry at an index that the array does not have; the code uses no such index.
abbrev pub no_entry : SwissEntry
no_entry = record {
  entrant = record { id = 0; seed = 0 };
  wins = 0;
  draws = 0;
  losses = 0;
  played = [];
}

abbrev pub entry_at : List SwissEntry → ℕ → SwissEntry
entry_at entries i = get_or entries i no_entry

-- The comparison of the sort is at most 0: score descending, then seed and id ascending.
unfoldable pub comes_first : List SwissEntry → ℕ → ℕ → Bool
unfolding score_twice
comes_first entries i j =
    let x = entry_at entries i in
    let y = entry_at entries j in
    if score_twice y == score_twice x
    then (if x.entrant.seed == y.entrant.seed
        then leb x.entrant.id y.entrant.id
        else leb x.entrant.seed y.entrant.seed)
    else leb (score_twice y) (score_twice x)

-- `Set.prototype.add`
abbrev pub add_played : ℕ → SwissEntry → SwissEntry
add_played id e = if contains id e.played then e else record e { played = e.played ++ id ∷ [] }

pub record Pairing : Type 0 where
  pub id : MatchId
  pub a : Entrant
  pub b : Entrant

-- The variables of the loop. The entries are the caller's, and change.
pub record PairState : Type 0 where
  pub entries : List SwissEntry
  pub paired : List Bool
  pub out : List Pairing
  pub next_id : MatchId

-- The tests of the inner loop.
unfoldable pub can_meet : PairState → ℕ → ℕ → Bool
can_meet st i j =
    not (j == i || get_or st.paired j false)
    && not (contains (entry_at st.entries j).entrant.id (entry_at st.entries i).played)

-- The pair that the loop pushes.
abbrev pub pair_of : PairState → ℕ → ℕ → Pairing
pair_of st i j = record {
  id = st.next_id;
  a = (entry_at st.entries i).entrant;
  b = (entry_at st.entries j).entrant;
}

unfoldable pub pair_up : PairState → ℕ → ℕ → PairState
pair_up st i j =
    let a = (entry_at st.entries i).entrant in
    let b = (entry_at st.entries j).entrant in
    let met = set st.entries i (add_played b.id (entry_at st.entries i)) in
    record {
      entries = set met j (add_played a.id (entry_at met j));
      paired = set (set st.paired i true) j true;
      out = st.out ++ pair_of st i j ∷ [];
      next_id = suc st.next_id;
    }

-- One round of the outer loop.
unfoldable pub pair_one : List ℕ → ℕ → PairState → PairState
unfolding can_meet pair_up
pair_one idx i st =
    if get_or st.paired i false
    then st
    else elim (find (can_meet st i) idx) [ none ↦ st | some j ↦ pair_up st i j ]

unfoldable pub pair_all : List ℕ → List ℕ → PairState → PairState
unfolding pair_one
pair_all idx [] st = st
pair_all idx (i ∷ rest) st = pair_all idx rest (pair_one idx i st)

unfoldable pub pairing_order : List SwissEntry → List ℕ
unfolding comes_first
pairing_order entries = sort (comes_first entries) (range 0 (length entries))

-- The pairs are in `out`, and the entries as the call leaves them in `entries`.
unfoldable pub pair_swiss_round : List SwissEntry → MatchId → PairState
unfolding pair_all pairing_order
pair_swiss_round entries start_id =
    let idx = pairing_order entries in
    pair_all idx idx (record {
      entries = entries;
      paired = replicate (length entries) false;
      out = [];
      next_id = start_id;
    })
