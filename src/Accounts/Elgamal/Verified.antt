-- ===== src/Accounts/Elgamal/Verified.antt =====
-- A signature over ristretto255 is verified by the public key of its signer (nativeSigner.ts).
use tosdk.Prelude.{
  ℕ, zero, suc, ◌≡◌, refl, ap, ◌∙◌, arith, true, false, Bool-cases, inl, inr, List, [], ◌∷◌, Option,
  none, some, length,
}
use tosdk.Prelude.Results.{ok}
use tosdk.Data.{concat_bytes}
use tosdk.Accounts.Halves.{concat_bytes-two, halves_lem}
use tosdk.Accounts.Elgamal.{
  Ristretto, elgamal_generator_h, elgamal_hash_to_scalar, scalar_from_canonical_bytes, random_bytes,
  random_elgamal_scalar, secret_of, elgamal_public_key_from_private_key, sign_elgamal, not_zero,
  bytes_to_big_int_le, verified, verify_elgamal, or_throw, or_false,
}

-- What @noble/curves says of ristretto255: `act` is the multiple of a point, and the scalars are a
-- field, whose elements and points have encodings of 32 bytes that are read back.
pub record IsGroup {Point Scalar : Type 0} (group : Ristretto Point Scalar)
    (act : Point → Scalar → Point) : Type 0 where
  pub multiply :
      (p : Point) (a : Scalar)
      → group.eql a group.zero_scalar ≡ false
      → group.multiply p a ≡ some (act p a)
  pub act_mul : (p : Point) (a b : Scalar) → act (act p a) b ≡ act p (group.mul a b)
  pub act_add :
      (p : Point) (a b : Scalar) → group.add_points (act p a) (act p b) ≡ act p (group.add a b)
  pub mul_neg : (a b : Scalar) → group.mul a (group.neg b) ≡ group.neg (group.mul a b)
  pub add_neg : (a b : Scalar) → group.add (group.add a b) (group.neg a) ≡ b
  pub eql_refl : (a : Scalar) → group.eql a a ≡ true
  pub inv_nonzero :
      (a : Scalar)
      → group.eql a group.zero_scalar ≡ false
      → group.eql (group.inv a) group.zero_scalar ≡ false
  pub neg_nonzero :
      (a : Scalar)
      → group.eql a group.zero_scalar ≡ false
      → group.eql (group.neg a) group.zero_scalar ≡ false
  pub point_bytes : (p : Point) → group.point_from_bytes (group.point_to_bytes p) ≡ some p
  pub point_length : (p : Point) → length (group.point_to_bytes p) ≡ 32
  pub scalar_bytes : (a : Scalar) → group.scalar_from_bytes (group.scalar_to_bytes a) ≡ some a
  pub scalar_length : (a : Scalar) → length (group.scalar_to_bytes a) ≡ 32

module _ {W Point Scalar : Type 0} (group : Ristretto Point Scalar) (sha3_512 : List ℕ → List ℕ)
    (get_random_values : ℕ → W → List ℕ × W) (act : Point → Scalar → Point)
    (laws : IsGroup group act) where
  abbrev pub generator_of : Option Point → Point
  generator_of none = group.hash_to_curve (sha3_512 group.base_bytes)
  generator_of (some h) = h

  generator_lem :
      (s : W × Option Point)
      → elgamal_generator_h group sha3_512 get_random_values s
        ≡ (ok (generator_of s.1), (s.0, some (generator_of s.1)))
  unfolding elgamal_generator_h
  generator_lem (w, none) = refl
  generator_lem (w, some h) = refl

  secret_lem :
      (secret : Scalar)
      → group.eql secret group.zero_scalar ≡ false
      → secret_of group sha3_512 get_random_values (group.scalar_to_bytes secret) ≡ ok secret
  unfolding secret_of not_zero scalar_from_canonical_bytes or_throw
  secret_lem secret n = rw (laws.scalar_bytes secret, n) refl

  -- The public key, the hash that is signed over, and the two scalars of a signature.
  abbrev pub key_of : Point → Scalar → List ℕ
  key_of h secret = group.point_to_bytes (act h (group.inv secret))

  abbrev pub challenge : Point → Scalar → List ℕ → Scalar → Scalar
  challenge h secret hash k =
      elgamal_hash_to_scalar group sha3_512 get_random_values (key_of h secret) hash
        (group.point_to_bytes (act h k))

  abbrev pub response : Point → Scalar → List ℕ → Scalar → Scalar
  response h secret hash k = group.add (group.mul (group.inv secret) (challenge h secret hash k)) k

  abbrev pub signature_of : Point → Scalar → List ℕ → Scalar → List ℕ
  signature_of h secret hash k = concat_bytes (
      group.scalar_to_bytes (response h secret hash k)
      ∷ group.scalar_to_bytes (challenge h secret hash k)
      ∷ [])

  sign_elgamal-returns :
      (f : ℕ) (hash : List ℕ) (secret k : Scalar) (s t : W × Option Point)
      → group.eql secret group.zero_scalar ≡ false
      → group.eql k group.zero_scalar ≡ false
      → random_elgamal_scalar group sha3_512 get_random_values f s ≡ (ok k, t)
      → sign_elgamal group sha3_512 get_random_values f hash (group.scalar_to_bytes secret) s
        ≡ (ok (signature_of (generator_of t.1) secret hash k), (t.0, some (generator_of t.1)))
  unfolding sign_elgamal or_throw
  sign_elgamal-returns f hash secret k s t n m r =
      rw
        (
          secret_lem secret n,
          r,
          generator_lem t,
          laws.multiply (generator_of t.1) (group.inv secret) (laws.inv_nonzero secret n),
          laws.multiply (generator_of t.1) k m,
        )
        refl

  public_key-returns :
      (secret : Scalar) (w : W) (h : Point)
      → group.eql secret group.zero_scalar ≡ false
      → elgamal_public_key_from_private_key group sha3_512 get_random_values
          (group.scalar_to_bytes secret)
          (w, some h)
        ≡ (ok (key_of h secret), (w, some h))
  unfolding elgamal_public_key_from_private_key elgamal_generator_h or_throw
  public_key-returns secret w h n =
      rw (secret_lem secret n, laws.multiply h (group.inv secret) (laws.inv_nonzero secret n)) refl

  -- The point that a verification computes is the one that was signed.
  point_lem :
      (h : Point) (x e k : Scalar)
      → group.add_points (act h (group.add (group.mul x e) k)) (act (act h x) (group.neg e))
        ≡ act h k
  point_lem h x e k =
      ap (group.add_points (act h (group.add (group.mul x e) k)))
        (laws.act_mul h x (group.neg e) ∙ ap (act h) (laws.mul_neg x e))
      ∙ laws.act_add h (group.add (group.mul x e) k) (group.neg (group.mul x e))
      ∙ ap (act h) (laws.add_neg (group.mul x e) k)

  -- The loop of a verification on the bytes of a signature.
  verified-true :
      (hash : List ℕ) (secret k : Scalar) (w : W) (h : Point)
      → group.eql secret group.zero_scalar ≡ false
      → group.eql (response h secret hash k) group.zero_scalar ≡ false
      → group.eql (challenge h secret hash k) group.zero_scalar ≡ false
      → verified group sha3_512 get_random_values hash
          (key_of h secret)
          (signature_of h secret hash k)
          (w, some h)
        ≡ (ok true, (w, some h))
  unfolding verified elgamal_generator_h or_throw scalar_from_canonical_bytes
  verified-true hash secret k w h n rn en =
      let x = group.inv secret in
      let e = challenge h secret hash k in
      let r = response h secret hash k in
      let parts =
        halves_lem 32 (group.scalar_to_bytes r) (group.scalar_to_bytes e) (laws.scalar_length r)
          (laws.scalar_length e) in
      rw
        (
          concat_bytes-two (group.scalar_to_bytes r) (group.scalar_to_bytes e),
          parts.1,
          parts.3,
          laws.point_bytes (act h x),
          laws.scalar_bytes r,
          laws.scalar_bytes e,
          laws.multiply h r rn,
          laws.multiply (act h x) (group.neg e) (laws.neg_nonzero e en),
          point_lem h x e k,
          laws.eql_refl e,
        )
        refl

  -- The scalar that is drawn is not 0.
  random-nonzero :
      (f : ℕ) (k : Scalar) (s t : W × Option Point)
      → random_elgamal_scalar group sha3_512 get_random_values f s ≡ (ok k, t)
      → group.eql k group.zero_scalar ≡ false
  unfolding random_elgamal_scalar random_bytes
  random-nonzero zero k s t e = absurd (ground (arith, ap (λ p. p.0) e))
  random-nonzero (suc f) k s t e =
      let value = group.create (bytes_to_big_int_le (get_random_values 64 s.0).0) in
      elim (Bool-cases (group.eql value group.zero_scalar)) [
        | inl y ↦ random-nonzero f k ((get_random_values 64 s.0).1, s.1) t (rw y at e)
        | inr n ↦ let drawn = rw n at e in cc
      ]

  length-signature :
      (h : Point) (secret k : Scalar) (hash : List ℕ) → length (signature_of h secret hash k) ≡ 64
  length-signature h secret k hash =
      let r = group.scalar_to_bytes (response h secret hash k) in
      let e = group.scalar_to_bytes (challenge h secret hash k) in
      ap length (concat_bytes-two r e)
      ∙ (halves_lem 32 r e (laws.scalar_length _) (laws.scalar_length _)).0

  verify-true :
      (hash : List ℕ) (secret k : Scalar) (w : W) (h : Point)
      → group.eql secret group.zero_scalar ≡ false
      → group.eql (response h secret hash k) group.zero_scalar ≡ false
      → group.eql (challenge h secret hash k) group.zero_scalar ≡ false
      → verify_elgamal group sha3_512 get_random_values hash
          (key_of h secret)
          (signature_of h secret hash k)
          (w, some h)
        ≡ (ok true, (w, some h))
  unfolding verify_elgamal or_false
  verify-true hash secret k w h n rn en =
      rw
        (
          laws.point_length (act h (group.inv secret)),
          length-signature h secret k hash,
          verified-true hash secret k w h n rn en,
        )
        refl

-- Over a group with the laws of ristretto255, for a secret that is not 0 and any draws of random bytes
-- that end in a scalar: signing returns a signature, and if neither of its two scalars is 0, the public
-- key of the secret verifies it.
pub verify_elgamal-sign_elgamal :
    {W Point Scalar : Type 0} (group : Ristretto Point Scalar) (sha3_512 : List ℕ → List ℕ)
    (get_random_values : ℕ → W → List ℕ × W) (act : Point → Scalar → Point)
    (laws : IsGroup group act) (f : ℕ) (hash : List ℕ) (secret k : Scalar) (s t : W × Option Point)
    → group.eql secret group.zero_scalar ≡ false
    → random_elgamal_scalar group sha3_512 get_random_values f s ≡ (ok k, t)
    → group.eql
        (response group sha3_512 get_random_values act laws
          (generator_of group sha3_512 get_random_values act laws t.1)
          secret
          hash
          k)
        group.zero_scalar
      ≡ false
    → group.eql
        (challenge group sha3_512 get_random_values act laws
          (generator_of group sha3_512 get_random_values act laws t.1)
          secret
          hash
          k)
        group.zero_scalar
      ≡ false
    → (signature : List ℕ) × (public_key : List ℕ) × (u : W × Option Point) × (sign_elgamal group
          sha3_512 get_random_values f hash
          (group.scalar_to_bytes secret)
          s
        ≡ (ok signature, u))
      × (elgamal_public_key_from_private_key group sha3_512 get_random_values
            (group.scalar_to_bytes secret)
            u
          ≡ (ok public_key, u))
      × (verify_elgamal group sha3_512 get_random_values hash public_key signature u ≡ (ok true, u))
verify_elgamal-sign_elgamal {W} {Point} {Scalar} group sha3_512 get_random_values act laws f hash
      secret k s t n r rn en =
    let h = generator_of group sha3_512 get_random_values act laws t.1 in
    let u : W × Option Point = (t.0, some h) in
    let key = key_of group sha3_512 get_random_values act laws h secret in
    let sig = signature_of group sha3_512 get_random_values act laws h secret hash k in
    let m = random-nonzero group sha3_512 get_random_values act laws f k s t r in
    (
      sig,
      key,
      u,
      sign_elgamal-returns group sha3_512 get_random_values act laws f hash secret k s t n m r,
      public_key-returns group sha3_512 get_random_values act laws secret t.0 h n,
      verify-true group sha3_512 get_random_values act laws hash secret k t.0 h n rn en,
    )
