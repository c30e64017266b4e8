-- ===== src/Engine/RoundRobin/Rotation.antt =====
-- The places of the entrants after some rounds.
use avax_build_games.Prelude.{
  ℕ, zero, suc, ◌-◌, ◌≤◌, ◌<◌, ◌≡◌, refl, ◌∙◌, ap, Option, none, List, [], ◌∷◌, length, get_or,
  ◌==◌, if◌then◌else◌, arith,
}
use avax_build_games.Engine.Types.{Entrant}
use avax_build_games.Engine.RoundRobin.{pop_last, splice_at_one, rotate}
use avax_build_games.Engine.RoundRobin.Circle.{turn}

abbrev pub Places : Type 0
Places = List (Option Entrant)

-- What stands at a place.
abbrev pub at : Places → ℕ → Option Entrant
at ps i = get_or ps i none

pop_last-at : (m : ℕ) (ps : Places) → length ps ≡ suc m → (pop_last ps).0 ≡ at ps m
unfolding pop_last
pop_last-at m [] h = absurd (omega arith)
pop_last-at zero (p ∷ []) h = refl
pop_last-at (suc m) (p ∷ []) h = absurd (omega arith)
pop_last-at zero (p ∷ q ∷ ps) h = absurd (omega arith)
pop_last-at (suc m) (p ∷ q ∷ ps) h = pop_last-at m (q ∷ ps) (omega arith)

front-at : (m i : ℕ) (ps : Places) → length ps ≡ suc m → i < m → at (pop_last ps).1 i ≡ at ps i
unfolding pop_last
front-at m i [] h b = absurd (omega arith)
front-at m i (p ∷ []) h b = absurd (omega arith)
front-at m zero (p ∷ q ∷ ps) h b = refl
front-at zero (suc i) (p ∷ q ∷ ps) h b = absurd (omega arith)
front-at (suc m) (suc i) (p ∷ q ∷ ps) h b = front-at m i (q ∷ ps) (omega arith) (omega arith)

length-front : (m : ℕ) (ps : Places) → length ps ≡ suc m → length (pop_last ps).1 ≡ m
unfolding pop_last
length-front m [] h = absurd (omega arith)
length-front m (p ∷ []) h = omega arith
length-front zero (p ∷ q ∷ ps) h = absurd (omega arith)
length-front (suc m) (p ∷ q ∷ ps) h = ap suc (length-front m (q ∷ ps) (omega arith))

splice_at_one-at :
    (last : Option Entrant) (front : Places) (i : ℕ)
    → 0 < length front
    → at (splice_at_one last front) i
      ≡ (if i == 0 then at front 0 else if i == 1 then last else at front (i - 1))
unfolding splice_at_one
splice_at_one-at last [] i h = absurd (omega arith)
splice_at_one-at last (p ∷ ps) zero h = refl
splice_at_one-at last (p ∷ ps) (suc zero) h = refl
splice_at_one-at last (p ∷ ps) (suc (suc i)) h = ground arith

length-splice_at_one :
    (last : Option Entrant) (front : Places)
    → length (splice_at_one last front) ≡ suc (length front)
unfolding splice_at_one
length-splice_at_one last [] = refl
length-splice_at_one last (p ∷ ps) = refl

length-rotate : (m : ℕ) (ps : Places) → length ps ≡ suc m → length (rotate ps) ≡ suc m
unfolding rotate
length-rotate m ps h =
    length-splice_at_one (pop_last ps).0 (pop_last ps).1 ∙ ap suc (length-front m ps h)

-- The place in the round before.
abbrev before : ℕ → ℕ → ℕ
before m i = if i == 0 then 0 else if i == 1 then m else i - 1

rotate-at :
    (m i : ℕ) (ps : Places)
    → 0 < m
    → length ps ≡ suc m
    → i ≤ m
    → at (rotate ps) i ≡ at ps (before m i)
unfolding rotate
rotate-at m i ps pos h b =
    splice_at_one-at (pop_last ps).0 (pop_last ps).1 i (omega (arith, length-front m ps h))
    ∙ back i b
  where
    back :
        (i : ℕ)
        → i ≤ m
        → (if i == 0
            then at (pop_last ps).1 0
            else if i == 1
            then (pop_last ps).0
            else at (pop_last ps).1 (i - 1))
          ≡ at ps (before m i)
    back zero b = front-at m 0 ps h pos
    back (suc zero) b = pop_last-at m ps h
    back (suc (suc i)) b = let f = front-at m (suc i) ps h (omega arith) in ground (arith, f)

-- The places of round `r`, when `start` are those of the first round.
pub record IsRound (m r : ℕ) (start ps : Places) : Type 0 where
  pub size : length ps ≡ suc m
  pub turned : (i : ℕ) → i ≤ m → at ps i ≡ at start (turn m r i)

turn-before : (m r i : ℕ) → suc r < m → i ≤ m → turn m r (before m i) ≡ turn m (suc r) i
turn-before m r i h b = ground arith

before_bound : (m i : ℕ) → i ≤ m → before m i ≤ m
before_bound m i b = ground arith

pub IsRound-start : (m : ℕ) (start : Places) → length start ≡ suc m → IsRound m 0 start start
IsRound-start m start h = record { size = h; turned = λ i b. ap (λ j. at start j) (fixed i) }
  where
    fixed : (i : ℕ) → i ≡ turn m 0 i
    fixed i = ground arith

pub rotate-IsRound :
    (m r : ℕ) (start ps : Places)
    → suc r < m
    → IsRound m r start ps
    → IsRound m (suc r) start (rotate ps)
rotate-IsRound m r start ps h round = record {
  size = length-rotate m ps round.size;
  turned = λ i b.
      rotate-at m i ps (omega arith) round.size b
      ∙ round.turned (before m i) (before_bound m i b)
      ∙ ap (λ j. at start j) (turn-before m r i h b);
}
