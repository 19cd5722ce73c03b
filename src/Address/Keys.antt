-- ===== src/Address/Keys.antt =====
-- The keys of the caches of the address functions: none is empty, and each names its arguments.
use tosdk.Prelude.{
  ℕ, ◌≡◌, ◌≢◌, refl, ap, sym, ◌∙◌, arith, Bool, true, false, [], ◌∷◌, ◌++◌, Option, take, drop,
  length, take-append_exact, get_or,
}
use tosdk.Strings.{Text}
use tosdk.Address.{bool_text, is_address_key, checksum_address_key, chain_id_text}
use mathlib.Core.List.{reverse, reverse-append, reverse-reverse}

-- The letter that tells the two suffixes apart, from the end of the key.
abbrev letter : Bool → ℕ
letter true = b'u'
letter false = b's'

abbrev tail : Bool → ℕ
tail true = 5
tail false = 6

reverse-is_address_key :
    (a : Text) (s : Bool)
    → (get_or (reverse (is_address_key a s)) 1 0 ≡ letter s)
      × (drop (tail s) (reverse (is_address_key a s)) ≡ reverse a)
unfolding is_address_key bool_text
reverse-is_address_key a true = rw (reverse-append a (b'.' ∷ bool_text true)) (refl, refl)
reverse-is_address_key a false = rw (reverse-append a (b'.' ∷ bool_text false)) (refl, refl)

letter_inj : (s t : Bool) → letter s ≡ letter t → s ≡ t
letter_inj true true e = refl
letter_inj true false e = ground (arith, e)
letter_inj false true e = ground (arith, e)
letter_inj false false e = refl

pub is_address_key_inj :
    (a b : Text) (s t : Bool) → is_address_key a s ≡ is_address_key b t → (a ≡ b) × (s ≡ t)
is_address_key_inj a b s t e =
    let u : s ≡ t = letter_inj s t (
      sym (reverse-is_address_key a s).0
      ∙ ap (λ k. get_or (reverse k) 1 0) e
      ∙ (reverse-is_address_key b t).0) in
    let r : reverse a ≡ reverse b =
      sym (reverse-is_address_key a s).1
      ∙ ap (λ k. drop (tail s) (reverse k)) e
      ∙ ap (λ v. drop (tail v) (reverse (is_address_key b t))) u
      ∙ (reverse-is_address_key b t).1 in
    (sym (reverse-reverse a) ∙ ap reverse r ∙ reverse-reverse b, u)

pub checksum_address_key_inj :
    (a b : Text) (c d : Option ℕ)
    → length a ≡ length b
    → checksum_address_key a c ≡ checksum_address_key b d
    → a ≡ b
unfolding checksum_address_key
checksum_address_key_inj a b c d l e =
    sym (take-append_exact a (b'.' ∷ chain_id_text c))
    ∙ ap (take (length a)) e
    ∙ ap (λ n. take n (b ++ (b'.' ∷ chain_id_text d))) l
    ∙ take-append_exact b (b'.' ∷ chain_id_text d)

pub is_address_key-ne_nil : (a : Text) (s : Bool) → is_address_key a s ≢ []
unfolding is_address_key
is_address_key-ne_nil [] s e = ground (arith, e)
is_address_key-ne_nil (x ∷ a) s e = ground (arith, e)

pub checksum_address_key-ne_nil : (a : Text) (c : Option ℕ) → checksum_address_key a c ≢ []
unfolding checksum_address_key
checksum_address_key-ne_nil [] c e = ground (arith, e)
checksum_address_key-ne_nil (x ∷ a) c e = ground (arith, e)
