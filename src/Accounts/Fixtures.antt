-- ===== src/Accounts/Fixtures.antt =====
-- A group of three elements, for runs of the signatures (nativeSigner.ts).
use tosdk.Prelude.{
  ℕ, ◌%◌, ◌≡◌, refl, Bool, true, false, List, [], ◌∷◌, Option, none, some, replicate, length, ◌==◌,
  if◌then◌else◌,
}
use tosdk.Accounts.Elgamal.{Ristretto}
use tosdk.Accounts.Elgamal.Verified.{IsGroup}

-- The field of three elements.
pub data F3 : Type 0 where
  f0 f1 f2 : F3

abbrev add3 : F3 → F3 → F3
add3 f0 b = b
add3 f1 f0 = f1
add3 f1 f1 = f2
add3 f1 f2 = f0
add3 f2 f0 = f2
add3 f2 f1 = f0
add3 f2 f2 = f1

abbrev neg3 : F3 → F3
neg3 f0 = f0
neg3 f1 = f2
neg3 f2 = f1

abbrev mul3 : F3 → F3 → F3
mul3 f0 b = f0
mul3 f1 b = b
mul3 f2 b = neg3 b

abbrev eql3 : F3 → F3 → Bool
eql3 f0 f0 = true
eql3 f1 f1 = true
eql3 f2 f2 = true
eql3 f0 f1 = false
eql3 f0 f2 = false
eql3 f1 f0 = false
eql3 f1 f2 = false
eql3 f2 f0 = false
eql3 f2 f1 = false

abbrev pub word3 : F3 → List ℕ
word3 f0 = 0 ∷ replicate 31 0
word3 f1 = 1 ∷ replicate 31 0
word3 f2 = 2 ∷ replicate 31 0

abbrev of_number : ℕ → F3
of_number n = if n % 3 == 0 then f0 else if n % 3 == 1 then f1 else f2

abbrev read3 : List ℕ → Option F3
read3 [] = none
read3 (b ∷ bs) = some (of_number b)

-- The points are the field over itself.
abbrev times3 : F3 → F3 → Option F3
times3 p f0 = none
times3 p f1 = some p
times3 p f2 = some (neg3 p)

abbrev pub act3 : F3 → F3 → F3
act3 p a = mul3 a p

abbrev pub group3 : Ristretto F3 F3
group3 = record {
  zero_scalar = f0;
  eql = eql3;
  inv = λ a. a;
  neg = neg3;
  mul = mul3;
  add = add3;
  create = of_number;
  scalar_to_bytes = word3;
  scalar_from_bytes = read3;
  base_bytes = 1 ∷ [];
  hash_to_curve = λ bs. f1;
  multiply = times3;
  add_points = add3;
  point_to_bytes = word3;
  point_from_bytes = read3;
}

neg3-neg3 : (a : F3) → neg3 (neg3 a) ≡ a
neg3-neg3 f0 = refl
neg3-neg3 f1 = refl
neg3-neg3 f2 = refl

multiply3 : (p a : F3) → eql3 a f0 ≡ false → times3 p a ≡ some (act3 p a)
multiply3 p f0 h = cc
multiply3 p f1 h = refl
multiply3 p f2 h = refl

act_mul3 : (p a b : F3) → act3 (act3 p a) b ≡ act3 p (mul3 a b)
act_mul3 p f0 f0 = refl
act_mul3 p f0 f1 = refl
act_mul3 p f0 f2 = refl
act_mul3 p f1 f0 = refl
act_mul3 p f1 f1 = refl
act_mul3 p f1 f2 = refl
act_mul3 p f2 f0 = refl
act_mul3 p f2 f1 = refl
act_mul3 p f2 f2 = neg3-neg3 p

act_add3 : (p a b : F3) → add3 (act3 p a) (act3 p b) ≡ act3 p (add3 a b)
act_add3 p f0 b = refl
act_add3 f0 f1 f0 = refl
act_add3 f1 f1 f0 = refl
act_add3 f2 f1 f0 = refl
act_add3 f0 f1 f1 = refl
act_add3 f1 f1 f1 = refl
act_add3 f2 f1 f1 = refl
act_add3 f0 f1 f2 = refl
act_add3 f1 f1 f2 = refl
act_add3 f2 f1 f2 = refl
act_add3 f0 f2 f0 = refl
act_add3 f1 f2 f0 = refl
act_add3 f2 f2 f0 = refl
act_add3 f0 f2 f1 = refl
act_add3 f1 f2 f1 = refl
act_add3 f2 f2 f1 = refl
act_add3 f0 f2 f2 = refl
act_add3 f1 f2 f2 = refl
act_add3 f2 f2 f2 = refl

mul_neg3 : (a b : F3) → mul3 a (neg3 b) ≡ neg3 (mul3 a b)
mul_neg3 f0 b = refl
mul_neg3 f1 b = refl
mul_neg3 f2 b = refl

add_neg3 : (a b : F3) → add3 (add3 a b) (neg3 a) ≡ b
add_neg3 f0 f0 = refl
add_neg3 f0 f1 = refl
add_neg3 f0 f2 = refl
add_neg3 f1 f0 = refl
add_neg3 f1 f1 = refl
add_neg3 f1 f2 = refl
add_neg3 f2 f0 = refl
add_neg3 f2 f1 = refl
add_neg3 f2 f2 = refl

eql_refl3 : (a : F3) → eql3 a a ≡ true
eql_refl3 f0 = refl
eql_refl3 f1 = refl
eql_refl3 f2 = refl

neg_nonzero3 : (a : F3) → eql3 a f0 ≡ false → eql3 (neg3 a) f0 ≡ false
neg_nonzero3 f0 h = h
neg_nonzero3 f1 h = refl
neg_nonzero3 f2 h = refl

read-word3 : (a : F3) → read3 (word3 a) ≡ some a
read-word3 f0 = refl
read-word3 f1 = refl
read-word3 f2 = refl

length-word3 : (a : F3) → length (word3 a) ≡ 32
length-word3 f0 = refl
length-word3 f1 = refl
length-word3 f2 = refl

pub group3-IsGroup : IsGroup group3 act3
group3-IsGroup = record {
  multiply = multiply3;
  act_mul = act_mul3;
  act_add = act_add3;
  mul_neg = mul_neg3;
  add_neg = add_neg3;
  eql_refl = eql_refl3;
  inv_nonzero = λ a h. h;
  neg_nonzero = neg_nonzero3;
  point_bytes = read-word3;
  point_length = length-word3;
  scalar_bytes = read-word3;
  scalar_length = length-word3;
}
