-- ===== src/Web/Auth/Organizer.antt =====
-- Whom requireOrganizer of auth.ts lets in.
use mathlib.Core.Option.{some-injective}
use avax_build_games.Prelude.{
  ℕ, ◌≤◌, ◌≡◌, refl, sym, ap, subst, ◌∙◌, false, Option, none, some, ◌||◌, [], ◌∷◌, length, arith,
  ltb, Bool-cases, Option-cases, inl, inr, ◌↔◌,
}
use avax_build_games.Web.Text.{Text, is_empty_text}
use avax_build_games.Web.Store.{Db, TournamentRecord, get_tournament}
use avax_build_games.Web.Auth.{bearer_token, same_token, check_token, require_organizer}
use avax_build_games.Web.Auth.Compare.{CodeUnits, same_token_iff}

-- The header has the manage token of the tournament, of at least 16 characters.
pub record IsOrganizer (auth : Option Text) (tid : ℕ) (db : Db) (rec : TournamentRecord)
    : Type 0 where
  pub stored : get_tournament tid db ≡ some rec
  pub token : rec.manage_token ≡ some (bearer_token auth)
  pub long : 16 ≤ length (bearer_token auth)

is_empty_text-long : (s : Text) → 16 ≤ length s → is_empty_text s ≡ false
is_empty_text-long [] h = ground arith
is_empty_text-long (c ∷ s) h = refl

check_token_sound :
    (stored : Option Text) (token : Text) (rec found : TournamentRecord)
    → CodeUnits token
    → ((b : Text) → stored ≡ some b → CodeUnits b)
    → check_token stored token rec ≡ some found
    → (rec ≡ found) × (stored ≡ some token)
unfolding check_token
check_token_sound none token rec found ht hu h = cc
check_token_sound (some b) token rec found ht hu h = elim (Bool-cases (is_empty_text b)) [
  | inl e ↦ cc (rw e at h)
  | inr e ↦ elim (Bool-cases (same_token token b)) [
    | inl same ↦ (
      some-injective rec found (rw (e, same) at h),
      ap some (sym ((same_token_iff token b ht (hu b refl)).0 same)),
    )
    | inr same ↦ cc (rw (e, same) at h)
  ]
]

check_token_complete :
    (token : Text) (rec : TournamentRecord)
    → CodeUnits token
    → 16 ≤ length token
    → check_token (some token) token rec ≡ some rec
unfolding check_token
check_token_complete token rec ht long =
    rw (is_empty_text-long token long, (same_token_iff token token ht ht).1 refl) refl

require_organizer_sound :
    (auth : Option Text) (tid : ℕ) (db : Db) (rec : TournamentRecord)
    → CodeUnits (bearer_token auth)
    → ((r : TournamentRecord) (b : Text)
        → get_tournament tid db ≡ some r
        → r.manage_token ≡ some b
        → CodeUnits b)
    → require_organizer auth tid db ≡ some rec
    → IsOrganizer auth tid db rec
unfolding require_organizer
require_organizer_sound auth tid db rec ht hu h =
    let s = bearer_token auth in
    elim (Bool-cases (is_empty_text s || ltb (length s) 16)) [
      | inl e ↦ cc (rw e at h)
      | inr e ↦ elim (Option-cases (get_tournament tid db)) [
        | inl e' ↦ cc (rw (e, e') at h)
        | inr (r, e') ↦
            let both =
              check_token_sound r.manage_token s r rec ht (λ b. hu r b e') (rw (e, e') at h) in
            record {
              stored = e' ∙ ap some both.0;
              token = sym (ap (λ (k : TournamentRecord). k.manage_token) both.0) ∙ both.1;
              long = ground arith;
            }
      ]
    ]

-- On strings of code units requireOrganizer returns a record exactly when it is the tournament's
-- record, and the header has its manage token, of at least 16 characters.
pub require_organizer_iff :
    (auth : Option Text) (tid : ℕ) (db : Db) (rec : TournamentRecord)
    → CodeUnits (bearer_token auth)
    → ((r : TournamentRecord) (b : Text)
        → get_tournament tid db ≡ some r
        → r.manage_token ≡ some b
        → CodeUnits b)
    → (require_organizer auth tid db ≡ some rec) ↔ IsOrganizer auth tid db rec
unfolding require_organizer
require_organizer_iff auth tid db rec ht hu = (
  (λ h. require_organizer_sound auth tid db rec ht hu h),
  (λ o.
      let long : ltb (length (bearer_token auth)) 16 ≡ false = let h = o.long in ground arith in
      rw (is_empty_text-long (bearer_token auth) o.long, long, o.stored)
        (subst (λ m. check_token m (bearer_token auth) rec ≡ some rec) (sym o.token)
          (check_token_complete (bearer_token auth) rec ht o.long))),
)
