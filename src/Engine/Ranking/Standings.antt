-- ===== src/Engine/Ranking/Standings.antt =====
-- What the standings add up to, and how they are ordered.
use avax_build_games.Prelude.{
  ℕ, ◌+◌, ◌≤◌, ◌≡◌, refl, ap, subst, inl, inr, true, false, Option, none, some, List, [], ◌∷◌, map,
  sort, insert_sorted, Ascending, sort-Ascending, arith, Bool-cases, Option-cases, ◌==◌, is_some,
  ◌&&◌, if◌then◌else◌,
}
use mathlib.Core.Option.{some-injective}
use avax_build_games.Engine.Types.{Outcome, draw, void, Entrant, BracketMatch, Standing}
use avax_build_games.Engine.Tournament.{Tournament}
use avax_build_games.Engine.Ranking.{
  ◌>>=◌, no_results, bump, win, lose, tie, count_outcome, count_match, count_matches, ranks_before,
  standings,
}

-- One count, over all standings.
abbrev pub total : (Standing → ℕ) → List Standing → ℕ
total count [] = 0
total count (s ∷ st) = count s + total count st

bump-total :
    (count : Standing → ℕ) (f : Standing → Standing) (d id : ℕ) (st st' : List Standing)
    → ((s : Standing) → count (f s) ≡ count s + d)
    → bump id f st ≡ some st'
    → total count st' ≡ total count st + d
unfolding bump
bump-total count f d id [] st' hf h = cc
bump-total count f d id (s ∷ st) st' hf h = elim (Bool-cases (s.id == id)) [
  | inl e ↦
      let same = some-injective (f s ∷ st) st' (rw e at h) in
      omega (arith, ap (total count) same, hf s)
  | inr e ↦ elim (Option-cases (bump id f st)) [
    | inl missing ↦ cc (rw (e, missing) at h)
    | inr (rest, found) ↦
        let same = some-injective (s ∷ rest) st' (rw (e, found) at h) in
        omega (arith, ap (total count) same, bump-total count f d id st rest hf found)
  ]
]

-- The three totals after a match, from those before it.
record Adds (wins losses draws : ℕ) (st st' : List Standing) : Type 0 where
  won : total (λ s. s.wins) st' ≡ total (λ s. s.wins) st + wins
  lost : total (λ s. s.losses) st' ≡ total (λ s. s.losses) st + losses
  drew : total (λ s. s.draws) st' ≡ total (λ s. s.draws) st + draws

bump-win-Adds : (id : ℕ) (st st' : List Standing) → bump id win st ≡ some st' → Adds 1 0 0 st st'
bump-win-Adds id st st' h = record {
  won = bump-total (λ s. s.wins) win 1 id st st' (λ s. omega arith) h;
  lost = bump-total (λ s. s.losses) win 0 id st st' (λ s. omega arith) h;
  drew = bump-total (λ s. s.draws) win 0 id st st' (λ s. omega arith) h;
}

bump-lose-Adds : (id : ℕ) (st st' : List Standing) → bump id lose st ≡ some st' → Adds 0 1 0 st st'
bump-lose-Adds id st st' h = record {
  won = bump-total (λ s. s.wins) lose 0 id st st' (λ s. omega arith) h;
  lost = bump-total (λ s. s.losses) lose 1 id st st' (λ s. omega arith) h;
  drew = bump-total (λ s. s.draws) lose 0 id st st' (λ s. omega arith) h;
}

bump-tie-Adds : (id : ℕ) (st st' : List Standing) → bump id tie st ≡ some st' → Adds 0 0 1 st st'
bump-tie-Adds id st st' h = record {
  won = bump-total (λ s. s.wins) tie 0 id st st' (λ s. omega arith) h;
  lost = bump-total (λ s. s.losses) tie 0 id st st' (λ s. omega arith) h;
  drew = bump-total (λ s. s.draws) tie 1 id st st' (λ s. omega arith) h;
}

-- Inversion of a chain of two steps.
bind-eq-some {ℓ κ} :
    {A : Type ℓ} {B : Type κ} (m : Option A) (f : A → Option B) {b : B}
    → (m >>= f) ≡ some b
    → (x : A) × (m ≡ some x) × (f x ≡ some b)
bind-eq-some none f h = cc
bind-eq-some (some x) f h = (x, refl, h)

-- What an outcome between two entrants adds to the wins, to the losses and to the draws.
abbrev pub decides : Outcome → ℕ
decides Outcome.a = 1
decides Outcome.b = 1
decides draw = 0
decides void = 0

abbrev pub ties : Outcome → ℕ
ties Outcome.a = 0
ties Outcome.b = 0
ties draw = 2
ties void = 0

count_outcome-Adds :
    (o : Outcome) (x y : ℕ) (st st' : List Standing)
    → count_outcome o x y st ≡ some st'
    → Adds (decides o) (decides o) (ties o) st st'
unfolding count_outcome
count_outcome-Adds Outcome.a x y st st' h =
    let (mid, first, second) = bind-eq-some (bump x win st) (bump y lose) h in
    let p = bump-win-Adds x st mid first in
    let q = bump-lose-Adds y mid st' second in
    record {
      won = omega (arith, p.won, q.won);
      lost = omega (arith, p.lost, q.lost);
      drew = omega (arith, p.drew, q.drew);
    }
count_outcome-Adds Outcome.b x y st st' h =
    let (mid, first, second) = bind-eq-some (bump y win st) (bump x lose) h in
    let p = bump-win-Adds y st mid first in
    let q = bump-lose-Adds x mid st' second in
    record {
      won = omega (arith, p.won, q.won);
      lost = omega (arith, p.lost, q.lost);
      drew = omega (arith, p.drew, q.drew);
    }
count_outcome-Adds draw x y st st' h =
    let (mid, first, second) = bind-eq-some (bump x tie st) (bump y tie) h in
    let p = bump-tie-Adds x st mid first in
    let q = bump-tie-Adds y mid st' second in
    record {
      won = omega (arith, p.won, q.won);
      lost = omega (arith, p.lost, q.lost);
      drew = omega (arith, p.drew, q.drew);
    }
count_outcome-Adds void x y st st' h =
    let same = some-injective st st' h in
    record {
      won = omega (arith, ap (total (λ s. s.wins)) same);
      lost = omega (arith, ap (total (λ s. s.losses)) same);
      drew = omega (arith, ap (total (λ s. s.draws)) same);
    }

-- A count over the matches that have an outcome and two sides.
abbrev pub over_played : (Outcome → ℕ) → BracketMatch → ℕ
over_played f m = elim m.outcome [
  | none ↦ 0
  | some o ↦ if is_some m.a && is_some m.b then f o else 0
]

abbrev pub total_played : (Outcome → ℕ) → List BracketMatch → ℕ
total_played f [] = 0
total_played f (m ∷ ms) = over_played f m + total_played f ms

Adds-none : (st st' : List Standing) → some st ≡ some st' → Adds 0 0 0 st st'
Adds-none st st' h =
    let same = some-injective st st' h in
    record {
      won = omega (arith, ap (total (λ s. s.wins)) same);
      lost = omega (arith, ap (total (λ s. s.losses)) same);
      drew = omega (arith, ap (total (λ s. s.draws)) same);
    }

count_match-Adds :
    (m : BracketMatch) (st st' : List Standing)
    → count_match m st ≡ some st'
    → Adds (over_played decides m) (over_played decides m) (over_played ties m) st st'
unfolding count_match
count_match-Adds m st st' h = elim (Option-cases m.outcome) [
  | inl e ↦ rw e (Adds-none st st' (rw e at h))
  | inr (o, e) ↦ elim (Option-cases m.a) [
    | inl ea ↦ rw (e, ea) (Adds-none st st' (rw (e, ea) at h))
    | inr (x, ea) ↦ elim (Option-cases m.b) [
      | inl eb ↦ rw (e, ea, eb) (Adds-none st st' (rw (e, ea, eb) at h))
      | inr (y, eb) ↦ rw (e, ea, eb) (count_outcome-Adds o x.id y.id st st' (rw (e, ea, eb) at h))
    ]
  ]
]

count_matches-Adds :
    (ms : List BracketMatch) (st st' : List Standing)
    → count_matches ms st ≡ some st'
    → Adds (total_played decides ms) (total_played decides ms) (total_played ties ms) st st'
unfolding count_matches
count_matches-Adds [] st st' h = Adds-none st st' h
count_matches-Adds (m ∷ ms) st st' h =
    let (mid, first, rest) = bind-eq-some (count_match m st) (count_matches ms) h in
    let p = count_match-Adds m st mid first in
    let q = count_matches-Adds ms mid st' rest in
    record {
      won = omega (arith, p.won, q.won);
      lost = omega (arith, p.lost, q.lost);
      drew = omega (arith, p.drew, q.drew);
    }

total-insert_sorted :
    (count : Standing → ℕ) (s : Standing) (st : List Standing)
    → total count (insert_sorted ranks_before s st) ≡ count s + total count st
total-insert_sorted count s [] = refl
total-insert_sorted count s (x ∷ st) = elim (Bool-cases (ranks_before s x)) [
  | inl e ↦ rw e refl
  | inr e ↦ rw e (omega (arith, total-insert_sorted count s st))
]

total-sort :
    (count : Standing → ℕ) (st : List Standing)
    → total count (sort ranks_before st) ≡ total count st
total-sort count [] = refl
total-sort count (s ∷ st) =
    omega (arith, total-insert_sorted count s (sort ranks_before st), total-sort count st)

total-no_results :
    (es : List Entrant)
    → (total (λ s. s.wins) (map no_results es) ≡ 0)
      × (total (λ s. s.losses) (map no_results es) ≡ 0)
      × (total (λ s. s.draws) (map no_results es) ≡ 0)
total-no_results [] = (refl, refl, refl)
total-no_results (e ∷ es) =
    let (w, l, d) = total-no_results es in (omega (arith, w), omega (arith, l), omega (arith, d))

-- When standings are returned, their wins are as many as the matches with two sides that were won,
-- and so are their losses; their draws are twice the matches that were drawn.
pub standings_totals :
    (t : Tournament) (st : List Standing)
    → standings t ≡ some st
    → (total (λ s. s.wins) st ≡ total_played decides t.match_map)
      × (total (λ s. s.losses) st ≡ total_played decides t.match_map)
      × (total (λ s. s.draws) st ≡ total_played ties t.match_map)
unfolding standings
standings_totals t st h =
    let start = map no_results t.entrants in
    let (counted, e, last) =
      bind-eq-some (count_matches t.match_map start) (λ c. some (sort ranks_before c)) h in
    let p = count_matches-Adds t.match_map start counted e in
    let (w, l, d) = total-no_results t.entrants in
    let same = some-injective (sort ranks_before counted) st last in
    (
      omega (arith, p.won, w, total-sort (λ s. s.wins) counted, ap (total (λ s. s.wins)) same),
      omega (arith, p.lost, l, total-sort (λ s. s.losses) counted, ap (total (λ s. s.losses)) same),
      omega (arith, p.drew, d, total-sort (λ s. s.draws) counted, ap (total (λ s. s.draws)) same),
    )

-- Wins descend; among equal wins losses ascend; among equal losses too the ids ascend.
pub record RanksBefore (x y : Standing) : Type 0 where
  pub wins : y.wins ≤ x.wins
  pub losses : x.wins ≡ y.wins → x.losses ≤ y.losses
  pub ids : x.wins ≡ y.wins → x.losses ≡ y.losses → x.id ≤ y.id

ranks_before-RanksBefore : (x y : Standing) → ranks_before x y ≡ true → RanksBefore x y
unfolding ranks_before
ranks_before-RanksBefore x y h = record {
  wins = ground arith;
  losses = λ e. ground arith;
  ids = λ e f. ground arith;
}

not-ranks_before-RanksBefore : (x y : Standing) → ranks_before x y ≡ false → RanksBefore y x
unfolding ranks_before
not-ranks_before-RanksBefore x y h = record {
  wins = ground arith;
  losses = λ e. ground arith;
  ids = λ e f. ground arith;
}

-- When standings are returned, each stands before its neighbour by wins, then losses, then id.
pub standings-Ascending :
    (t : Tournament) (st : List Standing) → standings t ≡ some st → Ascending RanksBefore st
unfolding standings
standings-Ascending t st h =
    let (counted, e, last) =
      bind-eq-some (count_matches t.match_map (map no_results t.entrants))
        (λ c. some (sort ranks_before c)) h in
    subst (Ascending RanksBefore) (some-injective (sort ranks_before counted) st last) (
      sort-Ascending ranks_before RanksBefore ranks_before-RanksBefore not-ranks_before-RanksBefore
        counted)
