-- ===== src/Strings/Laws.antt =====
-- Facts on strings that the components share.
use tosdk.Prelude.{
  ℕ, suc, ◌-◌, ◌≤◌, ◌≡◌, refl, ap, ◌↔◌, arith, true, [], ◌∷◌, ◌++◌, length, replicate,
  length-append, length-replicate,
}
use tosdk.Strings.{
  Text, prefix_0x, text_eq, remove_0x, pad_start, pad_end, lower, to_lower_case, is_hex_digit,
  all_hex_digits,
}

pub text_eq→eq : (s t : Text) → text_eq s t ≡ true → s ≡ t
unfolding text_eq
text_eq→eq [] [] h = refl
text_eq→eq [] (b ∷ t) h = cc
text_eq→eq (a ∷ s) [] h = cc
text_eq→eq (a ∷ s) (b ∷ t) h = ground (arith, text_eq→eq s t)

pub text_eq_refl : (s : Text) → text_eq s s ≡ true
unfolding text_eq
text_eq_refl [] = refl
text_eq_refl (a ∷ s) = ground (arith, text_eq_refl s)

pub text_eq_iff : (s t : Text) → (text_eq s t ≡ true) ↔ (s ≡ t)
text_eq_iff s t = (text_eq→eq s t, λ e. rw e (text_eq_refl t))

pub remove_0x-prefix : (s : Text) → remove_0x (prefix_0x ++ s) ≡ s
unfolding remove_0x
remove_0x-prefix s = refl

pub length-pad_start : (n c : ℕ) (s : Text) → length s ≤ n → length (pad_start n c s) ≡ n
unfolding pad_start
length-pad_start n c s h =
    omega (arith, length-append (replicate (n - length s) c) s, length-replicate (n - length s) c)

pub length-pad_end : (n c : ℕ) (s : Text) → length s ≤ n → length (pad_end n c s) ≡ n
unfolding pad_end
length-pad_end n c s h =
    omega (arith, length-append s (replicate (n - length s) c), length-replicate (n - length s) c)

pub lower-lower : (c : ℕ) → lower (lower c) ≡ lower c
unfolding lower
lower-lower c = ground arith

pub to_lower_case_idem : (s : Text) → to_lower_case (to_lower_case s) ≡ to_lower_case s
unfolding to_lower_case
to_lower_case_idem [] = refl
to_lower_case_idem (c ∷ s) = ground (arith, lower-lower c, to_lower_case_idem s)

pub length-to_lower_case : (s : Text) → length (to_lower_case s) ≡ length s
unfolding to_lower_case
length-to_lower_case [] = refl
length-to_lower_case (c ∷ s) = ap suc (length-to_lower_case s)

pub is_hex_digit-lower : (c : ℕ) → is_hex_digit c ≡ true → is_hex_digit (lower c) ≡ true
unfolding is_hex_digit lower
is_hex_digit-lower c h = ground arith

pub all_hex_digits-to_lower_case :
    (s : Text) → all_hex_digits s ≡ true → all_hex_digits (to_lower_case s) ≡ true
unfolding all_hex_digits to_lower_case
all_hex_digits-to_lower_case [] h = refl
all_hex_digits-to_lower_case (c ∷ s) h =
    ground (arith, is_hex_digit-lower c, all_hex_digits-to_lower_case s)
