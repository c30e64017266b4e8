-- ===== src/Client/Wallet/Parse.antt =====
-- What parseAddressList makes of a text.
use avax_build_games.Prelude.{ℕ, ◌≡◌, refl, ap, Bool, true, false, List, [], ◌∷◌, ◌++◌, All, arith}
use avax_build_games.Web.Text.{Text, is_empty_text, is_white}
use avax_build_games.Web.Text.Trim.{trim-dark}
use avax_build_games.Client.Wallet.{
  is_separator, starts_separator, split_separators, parse_address_list,
}

-- The characters of a part are no separators.
abbrev pub Solid : Text → Type 0
Solid s = All (λ c. is_separator c ≡ false) s

-- Addresses, each with a separator behind it.
abbrev pub lines : ℕ → List Text → Text
lines sep [] = []
lines sep (a ∷ as') = a ++ sep ∷ lines sep as'

split_separators_part :
    (part rest : Text) (c : ℕ)
    → Solid part
    → is_separator c ≡ true
    → starts_separator rest ≡ false
    → split_separators (part ++ c ∷ rest) ≡ part ∷ split_separators rest
unfolding split_separators
split_separators_part [] rest c h sep next = rw (sep, next) refl
split_separators_part (d ∷ part) rest c (hd, h) sep next =
    rw (hd, split_separators_part part rest c h sep next) refl

-- What a text of addresses needs to be read back.
pub record IsEntry (is_address : Text → Bool) (s : Text) : Type 0 where
  pub solid : Solid s
  pub filled : is_empty_text s ≡ false
  pub address : is_address s ≡ true

Solid-dark : (s : Text) → Solid s → All (λ c. is_white c ≡ false) s
unfolding is_separator
Solid-dark [] h = tt
Solid-dark (c ∷ s) (hc, h) = (ground (arith, hc), Solid-dark s h)

lines-start :
    (is_address : Text → Bool) (sep : ℕ) (entries : List Text)
    → All (IsEntry is_address) entries
    → starts_separator (lines sep entries) ≡ false
lines-start is_address sep [] h = refl
lines-start is_address sep ([] ∷ entries) (hs, h) = cc (hs.filled)
lines-start is_address sep ((c ∷ s) ∷ entries) (hs, h) = hs.solid.0

-- A text in which each address is followed by one separator, which may be a comma or any white space,
-- is read as these addresses, in their order.
pub parse_address_list-lines :
    (is_address : Text → Bool) (sep : ℕ) (entries : List Text)
    → is_separator sep ≡ true
    → All (IsEntry is_address) entries
    → parse_address_list is_address (lines sep entries) ≡ entries
unfolding parse_address_list split_separators
parse_address_list-lines is_address sep [] hsep h = refl
parse_address_list-lines is_address sep (s ∷ entries) hsep (hs, h) =
    rw
      (
        split_separators_part s (lines sep entries) sep hs.solid hsep
            (lines-start is_address sep entries h),
        trim-dark s (Solid-dark s hs.solid),
        hs.filled,
        hs.address,
      )
      (ap (λ (ss : List Text). s ∷ ss) (parse_address_list-lines is_address sep entries hsep h))
