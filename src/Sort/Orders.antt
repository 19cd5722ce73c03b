-- ===== src/Sort/Orders.antt =====
-- Comparators by parts: a later key counts where the earlier ones are equal.
use tosdk.Prelude.{
  zero, suc, ℤ, pos, negsuc, ◌-ℤ◌, ◌≡◌, refl, arith, false, ◌||◌, if◌then◌else◌, pos_part, neg_part,
  ltb, ◌+◌, sym, ◌∙◌,
}
use tosdk.Sort.{is_positive, is_below, IsComparator}

turned_ℤ : (x y : ℤ) → is_positive (x -ℤ y) ≡ is_below (y -ℤ x)
turned_ℤ (pos m) (pos n) = ground arith
turned_ℤ (pos m) (negsuc n) = ground arith
turned_ℤ (negsuc m) (pos n) = ground arith
turned_ℤ (negsuc m) (negsuc n) = ground arith

not_positive :
    (x y : ℤ) → is_positive (x -ℤ y) ≡ ltb (pos_part y + neg_part x) (pos_part x + neg_part y)
not_positive (pos m) (pos n) = ground arith
not_positive (pos m) (negsuc n) = ground arith
not_positive (negsuc m) (pos n) = ground arith
not_positive (negsuc m) (negsuc n) = ground arith

chained_ℤ :
    (x y z : ℤ)
    → is_positive (y -ℤ x) ≡ false
    → is_positive (z -ℤ y) ≡ false
    → is_positive (z -ℤ x) ≡ false
chained_ℤ x y z p q =
    rw (not_positive z x) (ground (arith, sym (not_positive y x) ∙ p, sym (not_positive z y) ∙ q))

module _ {ℓ} {A : Type ℓ} where
  -- `if (first !== 0) return first; return second`
  abbrev pub lexical : (A → A → ℤ) → (A → A → ℤ) → A → A → ℤ
  lexical first second a b =
      if is_positive (first a b) || is_below (first a b) then first a b else second a b

  pub lexical-IsComparator :
      (first second : A → A → ℤ)
      → IsComparator first
      → IsComparator second
      → IsComparator (lexical first second)
  lexical-IsComparator first second f s = record {
    turned = λ a b. ground (arith, f.turned a b, f.turned b a, s.turned a b);
    chained = λ a b c p q. ground (
      arith,
      p,
      q,
      f.turned a b,
      f.turned b a,
      f.turned b c,
      f.turned c b,
      f.turned a c,
      f.turned c a,
      f.chained a b c,
      f.chained c a b,
      f.chained b c a,
      s.chained a b c,
    );
  }

  -- Numbers, the larger first.
  pub descending-IsComparator : (key : A → ℤ) → IsComparator (λ a b. key b -ℤ key a)
  descending-IsComparator key = record {
    turned = λ a b. turned_ℤ (key a) (key b);
    chained = λ a b c. chained_ℤ (key a) (key b) (key c);
  }

both_signs : (z : ℤ) → is_positive z ≡ is_below z → is_positive z ≡ false
both_signs (pos zero) e = refl
both_signs (pos (suc n)) e = e
both_signs (negsuc n) e = refl

pub not_after_itself {ℓ} :
    {A : Type ℓ} (compare : A → A → ℤ)
    → IsComparator compare
    → (a : A) → is_positive (compare a a) ≡ false
not_after_itself compare c a = both_signs (compare a a) (c.turned a a)
