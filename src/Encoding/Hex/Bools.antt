-- ===== src/Encoding/Hex/Bools.antt =====
-- Booleans as hex strings.
use tosdk.Prelude.{
  ℕ, zero, suc, ◌-◌, ◌*◌, ◌<◌, ◌≡◌, refl, ap, ◌∙◌, arith, Bool, true, false, [], ◌∷◌, ◌++◌, some,
  if◌then◌else◌, replicate, length-append, length-replicate,
}
use tosdk.Prelude.Results.{ok, ◌>>=◌}
use tosdk.Strings.{Text, prefix_0x, remove_0x, pad_start, starts_with, text_eq}
use tosdk.Data.{left, hex, size, is_hex, trim_run, zeros_run, trim_hex, pad_hex}
use tosdk.Data.Trim.{trim_hex-left, even_run}
use tosdk.Encoding.Hex.{truthy, assert_size, fit_hex, bool_to_hex, hex_to_bool, bool_of_hex}

abbrev digit : Bool → ℕ
digit b = if b then b'1' else b'0'

abbrev padded : Bool → ℕ → Text
padded b k = prefix_0x ++ (replicate (k * 2 - 1) b'0' ++ (digit b ∷ []))

-- Zeros in front of a last digit are trimmed.
trim_run-zeros : (n d : ℕ) → trim_run left b'0' (replicate n b'0' ++ (d ∷ [])) ≡ d ∷ []
unfolding trim_run zeros_run
trim_run-zeros zero d = refl
trim_run-zeros (suc zero) d = refl
trim_run-zeros (suc (suc n)) d = trim_run-zeros (suc n) d

trim_hex-padded :
    (b : Bool) (k : ℕ) → trim_hex left (padded b k) ≡ prefix_0x ++ (b'0' ∷ digit b ∷ [])
trim_hex-padded b k =
    trim_hex-left (replicate (k * 2 - 1) b'0' ++ (digit b ∷ []))
    ∙ ap (λ t. prefix_0x ++ even_run t) (trim_run-zeros (k * 2 - 1) (digit b))

size-padded : (b : Bool) (k : ℕ) → 0 < k → size (hex (padded b k)) ≡ k
unfolding size is_hex starts_with
size-padded b k h = ground (
  arith,
  length-append (replicate (k * 2 - 1) b'0') (digit b ∷ []),
  length-replicate {A = ℕ} (k * 2 - 1) b'0',
)

bool_to_hex-padded : (b : Bool) (k : ℕ) → 0 < k → bool_to_hex b (some k) ≡ ok (padded b k)
unfolding bool_to_hex fit_hex assert_size size is_hex starts_with pad_hex remove_0x pad_start
bool_to_hex-padded true k h = ground (arith, h)
bool_to_hex-padded false k h = ground (arith, h)

bool_of_hex-digit : (b : Bool) → bool_of_hex (prefix_0x ++ (b'0' ∷ digit b ∷ [])) ≡ ok b
unfolding bool_of_hex text_eq
bool_of_hex-digit true = refl
bool_of_hex-digit false = refl

assert_size-padded : (b : Bool) (k : ℕ) → 0 < k → assert_size (hex (padded b k)) k ≡ ok tt
unfolding assert_size
assert_size-padded b k h = ground (arith, size-padded b k h)

hex_to_bool-padded : (b : Bool) (k : ℕ) → 0 < k → hex_to_bool (padded b k) (some k) ≡ ok b
unfolding hex_to_bool truthy
hex_to_bool-padded b k h = ground (
  arith,
  h,
  assert_size-padded b k h,
  trim_hex-padded b k,
  trim_hex-padded b 1,
  bool_of_hex-digit b,
)

-- A Boolean is written in a size of at least one byte and read back.
pub hex_to_bool-bool_to_hex :
    (b : Bool) (k : ℕ) → 0 < k → (bool_to_hex b (some k) >>= λ s. hex_to_bool s (some k)) ≡ ok b
hex_to_bool-bool_to_hex b k h =
    ap (λ r. r >>= λ s. hex_to_bool s (some k)) (bool_to_hex-padded b k h)
    ∙ hex_to_bool-padded b k h
