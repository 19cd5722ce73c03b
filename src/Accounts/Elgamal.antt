-- ===== src/Accounts/Elgamal.antt =====
-- The signatures over ristretto255 (nativeSigner.ts). The group and its scalars, the hash and the
-- random bytes are parameters; the state is the world that gives the random bytes and the module's
-- variable cachedElgamalGeneratorH.
use tosdk.Prelude.{
  ℕ, zero, suc, ◌+◌, ◌*◌, Bool, true, false, ◌&&◌, ◌||◌, not, List, [], ◌∷◌, ◌++◌, Option, none,
  some, ◌==◌, if◌then◌else◌, length, take, drop,
}
use tosdk.Prelude.Results.{Result, ok, err, plain_error, range_error}
use tosdk.Data.{concat_bytes}
use tosdk.Surfaces.Client.{Async, ◌>>=◌, return}
pub mod Verified

-- ristretto255.Point and ristretto255.Point.Fn. An operation that may throw answers an option: the
-- multiple of a point is none for the scalar 0.
pub record Ristretto (Point Scalar : Type 0) : Type 0 where
  pub zero_scalar : Scalar
  pub eql : Scalar → Scalar → Bool
  pub inv : Scalar → Scalar
  pub neg : Scalar → Scalar
  pub mul : Scalar → Scalar → Scalar
  pub add : Scalar → Scalar → Scalar
  pub create : ℕ → Scalar
  pub scalar_to_bytes : Scalar → List ℕ
  pub scalar_from_bytes : List ℕ → Option Scalar
  pub base_bytes : List ℕ
  pub hash_to_curve : List ℕ → Point
  pub multiply : Point → Scalar → Option Point
  pub add_points : Point → Point → Point
  pub point_to_bytes : Point → List ℕ
  pub point_from_bytes : List ℕ → Option Point

unfoldable pub or_throw : {A : Type 0} → Option A → Result A
or_throw none = err plain_error
or_throw (some a) = ok a

-- The loop of bytesToBigIntLE: the last byte is the highest.
unfoldable pub bytes_to_big_int_le : List ℕ → ℕ
bytes_to_big_int_le [] = 0
bytes_to_big_int_le (b ∷ bs) = bytes_to_big_int_le bs * 256 + b

-- catch { return false }
unfoldable pub or_false : Result Bool → Result Bool
or_false (ok b) = ok b
or_false (err e) = ok false

module _ {W Point Scalar : Type 0} (group : Ristretto Point Scalar) (sha3_512 : List ℕ → List ℕ)
    (get_random_values : ℕ → W → List ℕ × W) where
  -- Code that reads and sets the variable cachedElgamalGeneratorH.
  abbrev pub Signing : Type 0 → Type 0
  Signing A = Async (W × Option Point) A

  unfoldable pub elgamal_generator_h : Signing Point
  elgamal_generator_h (w, none) =
      let h = group.hash_to_curve (sha3_512 group.base_bytes) in (ok h, (w, some h))
  elgamal_generator_h (w, some h) = (ok h, (w, some h))

  unfoldable pub elgamal_hash_to_scalar : List ℕ → List ℕ → List ℕ → Scalar
  unfolding concat_bytes bytes_to_big_int_le
  elgamal_hash_to_scalar public_key hash point =
      group.create (bytes_to_big_int_le (sha3_512 (concat_bytes (public_key ∷ hash ∷ point ∷ []))))

  unfoldable pub scalar_from_canonical_bytes : List ℕ → Result Scalar
  unfolding or_throw
  scalar_from_canonical_bytes bytes = or_throw (group.scalar_from_bytes bytes)

  unfoldable pub random_bytes : ℕ → Signing (List ℕ)
  random_bytes n s = let r = get_random_values n s.0 in (ok r.0, (r.1, s.1))

  -- Until the scalar is not 0; on fuel, since the random bytes may give 0 again and again.
  unfoldable pub random_elgamal_scalar : ℕ → Signing Scalar
  unfolding bytes_to_big_int_le random_bytes
  random_elgamal_scalar zero = return (err range_error)
  random_elgamal_scalar (suc f) =
      let again = random_elgamal_scalar f in
      random_bytes 64 >>= λ bytes.
      let value = group.create (bytes_to_big_int_le bytes) in
      if group.eql value group.zero_scalar then again else return (ok value)

  -- if (secret === ristretto255.Point.Fn.ZERO) throw
  unfoldable pub not_zero : Result Scalar → Result Scalar
  not_zero (err e) = err e
  not_zero (ok secret) = if group.eql secret group.zero_scalar then err plain_error else ok secret

  -- The scalar of a private key.
  unfoldable pub secret_of : List ℕ → Result Scalar
  unfolding scalar_from_canonical_bytes not_zero
  secret_of private_key = not_zero (scalar_from_canonical_bytes private_key)

  unfoldable pub elgamal_public_key_from_private_key : List ℕ → Signing (List ℕ)
  unfolding secret_of elgamal_generator_h or_throw
  elgamal_public_key_from_private_key private_key = return (secret_of private_key) >>= λ secret.
      elgamal_generator_h >>= λ h. return (or_throw (group.multiply h (group.inv secret))) >>= λ p.
      return (ok (group.point_to_bytes p))

  unfoldable pub sign_elgamal : ℕ → List ℕ → List ℕ → Signing (List ℕ)
  unfolding secret_of random_elgamal_scalar elgamal_generator_h or_throw elgamal_hash_to_scalar
  sign_elgamal f hash private_key = return (secret_of private_key) >>= λ secret.
      random_elgamal_scalar f >>= λ k. elgamal_generator_h >>= λ h.
      let inverse = group.inv secret in
      return (or_throw (group.multiply h inverse)) >>= λ public_point.
      return (or_throw (group.multiply h k)) >>= λ r_point.
      let e =
        elgamal_hash_to_scalar (group.point_to_bytes public_point) hash
          (group.point_to_bytes r_point) in
      let s = group.add (group.mul inverse e) k in
      return (ok (concat_bytes (group.scalar_to_bytes s ∷ group.scalar_to_bytes e ∷ [])))

  -- The body of the try block.
  unfoldable pub verified : List ℕ → List ℕ → List ℕ → Signing Bool
  unfolding scalar_from_canonical_bytes elgamal_generator_h or_throw elgamal_hash_to_scalar
  verified hash public_key signature =
      return (or_throw (group.point_from_bytes public_key)) >>= λ public_point.
      return (scalar_from_canonical_bytes (take 32 signature)) >>= λ s.
      return (scalar_from_canonical_bytes (take 32 (drop 32 signature))) >>= λ e.
      elgamal_generator_h >>= λ h. return (or_throw (group.multiply h s)) >>= λ first.
      return (or_throw (group.multiply public_point (group.neg e))) >>= λ second.
      let r_point = group.add_points first second in
      let calculated = elgamal_hash_to_scalar public_key hash (group.point_to_bytes r_point) in
      return (ok (group.eql e calculated))

  unfoldable pub verify_elgamal : List ℕ → List ℕ → List ℕ → Signing Bool
  unfolding verified or_false
  verify_elgamal hash public_key signature s =
      if not (length public_key == 32) || not (length signature == 64)
      then (ok false, s)
      else let r = verified hash public_key signature s in (or_false r.0, r.1)
