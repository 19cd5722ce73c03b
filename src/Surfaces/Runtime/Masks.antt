-- ===== src/Surfaces/Runtime/Masks.antt =====
-- The connection modes of agentRuntime.ts, by one mask, against those of agentDiscovery.ts, mode by
-- mode.
use Prim.Native.Nat.{bit_and, bit_or, digits, bit_and-bitwise}
use tosdk.Prelude.{
  ℕ, zero, suc, ◌+◌, ◌*◌, ◌/◌, ◌%◌, ◌^◌, ◌≤◌, ◌<◌, min, ◌≡◌, refl, sym, ap, ◌∙◌, arith, Bool, true,
  false, ◌&&◌, ◌||◌, not, List, [], ◌∷◌, Option, ◌==◌, length, ltb,
}
use tosdk.Arrays.{filter}
use tosdk.Surfaces.Types.{AgentConnectionMode, talkreq, https, stream}
use tosdk.Surfaces.Preferences.{connection_mode_bit, has_bits, or_empty}
use tosdk.Surfaces.Discovery.Failures.{missing_modes, modes_missing, or_zero}
use tosdk.Surfaces.Runtime.Trust.{mask_from, required_connection_mask, mask_missing}

-- The lowest `k` binary digits of the conjunction.
abbrev low_and : ℕ → ℕ → ℕ → ℕ
low_and zero a b = 0
low_and (suc k) a b = low_and k (a / 2) (b / 2) * 2 + min (a % 2) (b % 2)

digits-zero : (n a : ℕ) → digits (λ b. zero) min n a 0 ≡ 0
digits-zero zero a = refl
digits-zero (suc n) zero = refl
digits-zero (suc n) (suc a) = let ih = digits-zero n (suc a / 2) in ground (arith, ih)

low_and-zero : (k b : ℕ) → low_and k 0 b ≡ 0
low_and-zero zero b = refl
low_and-zero (suc k) b = let ih = low_and-zero k (b / 2) in ground (arith, ih)

digits-low_and : (k n a b : ℕ) → b < 2 ^ k → a ≤ n → digits (λ b. zero) min n a b ≡ low_and k a b
digits-low_and zero n a b p q = let e : b ≡ 0 = omega (arith, p) in rw e (digits-zero n a)
digits-low_and (suc k) zero a b p q =
    let e : a ≡ 0 = omega (arith, q) in rw e (sym (low_and-zero (suc k) b))
digits-low_and (suc k) (suc n) zero b p q = sym (low_and-zero (suc k) b)
digits-low_and (suc k) (suc n) (suc a) b p q =
    let ih = digits-low_and k n (suc a / 2) (b / 2) (ground (arith, p)) (omega (arith, q)) in
    ap (λ x. x * 2 + min (suc a % 2) (b % 2)) ih

bit_and-low_and : (a b : ℕ) → b < 8 → bit_and a b ≡ low_and 3 a b
bit_and-low_and a b p = bit_and-bitwise a b ∙ digits-low_and 3 a a b p (omega arith)

-- The mask of the modes that are set.
abbrev mask_of : Bool → Bool → Bool → ℕ
mask_of false false false = 0
mask_of false false true = 4
mask_of false true false = 2
mask_of false true true = 6
mask_of true false false = 1
mask_of true false true = 5
mask_of true true false = 3
mask_of true true true = 7

abbrev is_mode : AgentConnectionMode → AgentConnectionMode → Bool
is_mode talkreq talkreq = true
is_mode https https = true
is_mode stream stream = true
is_mode talkreq https = false
is_mode talkreq stream = false
is_mode https talkreq = false
is_mode https stream = false
is_mode stream talkreq = false
is_mode stream https = false

abbrev wants : AgentConnectionMode → List AgentConnectionMode → Bool
wants mode [] = false
wants mode (m ∷ ms) = is_mode mode m || wants mode ms

mask_of-add :
    (mode : AgentConnectionMode) (t h q : Bool)
    → bit_or (mask_of t h q) (connection_mode_bit mode)
      ≡ mask_of (is_mode talkreq mode || t) (is_mode https mode || h) (is_mode stream mode || q)
mask_of-add mode t h q = ground arith

or_swap : (a b c : Bool) → (b || a) || c ≡ a || (b || c)
or_swap a b c = ground arith

-- The mask has just the bits of the modes.
mask_from_lem :
    (t h q : Bool) (modes : List AgentConnectionMode)
    → mask_from (mask_of t h q) modes
      ≡ mask_of (wants talkreq modes || t) (wants https modes || h) (wants stream modes || q)
unfolding mask_from
mask_from_lem t h q [] = refl
mask_from_lem t h q (mode ∷ modes) =
    let ih =
      mask_from_lem (is_mode talkreq mode || t) (is_mode https mode || h) (is_mode stream mode || q)
        modes in
    rw
      (
        mask_of-add mode t h q,
        or_swap (wants talkreq modes) (is_mode talkreq mode) t,
        or_swap (wants https modes) (is_mode https mode) h,
        or_swap (wants stream modes) (is_mode stream mode) q,
      )
      ih

-- Which of the modes asked for the mask has not.
abbrev lacks : ℕ → List AgentConnectionMode → AgentConnectionMode → Bool
lacks mask modes mode = wants mode modes && not (has_bits mask (connection_mode_bit mode))

mask_of-lacks :
    (mask : ℕ) (t h q : Bool)
    → (not (mask_of t h q == 0) && not (bit_and mask (mask_of t h q) == mask_of t h q))
      ≡ (t && not (bit_and mask 1 == 1))
        || (h && not (bit_and mask 2 == 2))
        || (q && not (bit_and mask 4 == 4))
mask_of-lacks mask t h q =
    rw
      (
        bit_and-low_and mask (mask_of t h q) (ground arith),
        bit_and-low_and mask 1 (omega arith),
        bit_and-low_and mask 2 (omega arith),
        bit_and-low_and mask 4 (omega arith),
      )
      (ground arith)

missing_modes-lacks :
    (mask : ℕ) (modes : List AgentConnectionMode)
    → ltb 0 (length (missing_modes mask modes))
      ≡ lacks mask modes talkreq || lacks mask modes https || lacks mask modes stream
unfolding missing_modes filter has_bits
missing_modes-lacks mask [] = refl
missing_modes-lacks mask (mode ∷ modes) =
    let ih = missing_modes-lacks mask modes in ground (arith, ih)

missing_modes-empty :
    (mask : ℕ) (modes : List AgentConnectionMode)
    → ltb 0 (length modes) && ltb 0 (length (missing_modes mask modes))
      ≡ ltb 0 (length (missing_modes mask modes))
unfolding missing_modes filter
missing_modes-empty mask [] = refl
missing_modes-empty mask (mode ∷ modes) = ground arith

or_false : (b : Bool) → b || false ≡ b
or_false b = ground arith

mask-lacks :
    (mask : ℕ) (modes : List AgentConnectionMode)
    → (not (mask_from 0 modes == 0) && not (bit_and mask (mask_from 0 modes) == mask_from 0 modes))
      ≡ lacks mask modes talkreq || lacks mask modes https || lacks mask modes stream
unfolding has_bits
mask-lacks mask modes = rw (mask_from_lem false false false modes) (
    mask_of-lacks mask (wants talkreq modes || false) (wants https modes || false)
      (wants stream modes || false)
    ∙ rw
        (
          or_false (wants talkreq modes),
          or_false (wants https modes),
          or_false (wants stream modes),
        )
        refl)

-- For every mask of connection modes and all modes required: agentRuntime.ts finds a mode missing
-- by its one mask just where agentDiscovery.ts finds one by testing mode after mode.
pub mask_missing-modes_missing :
    (mask : Option ℕ) (modes : Option (List AgentConnectionMode))
    → mask_missing mask modes ≡ modes_missing mask modes
unfolding mask_missing required_connection_mask modes_missing
mask_missing-modes_missing mask modes =
    let m = or_zero mask in
    let ms = or_empty modes in
    mask-lacks m ms ∙ sym (missing_modes-empty m ms ∙ missing_modes-lacks m ms)
