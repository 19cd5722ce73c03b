-- ===== src/Transaction/Tests.antt =====
-- Runs of the checks and the serialization of a transaction.
use tosdk.Prelude.{◌≡◌, ◌↔◌, refl, arith, true, false, Bool, [], ◌++◌, some, none, replicate, pos}
use tosdk.Prelude.Results.{Error, ok, err}
use tosdk.Strings.{codes, prefix_0x}
use tosdk.Lru.{LruMap, find}
use tosdk.Address.Cached.{IsCoherent}
use tosdk.Encoding.Hex.{number, bigint}
use tosdk.Transaction.{
  TransactionSerializableNative, absent, assert_transaction_native, serialize_transaction,
}
use tosdk.Transaction.Checks.{is_well_formed, assert_transaction_native_lem}
use tosdk.Transaction.FieldList.{IsSerialized}
use tosdk.Transaction.FieldList.Places.{serialize_transaction_places}

abbrev transfer : TransactionSerializableNative
transfer = record {
  type = none;
  chain_id = number (pos 1666);
  nonce = number (pos 0);
  gas = bigint (pos 21000);
  to = some (prefix_0x ++ replicate 64 b'a');
  value = bigint (pos 1);
  data_ = none;
  from = prefix_0x ++ replicate 64 b'b';
  signer_type = codes "secp256k1";
  sponsor = none;
  sponsor_signer_type = none;
  sponsor_nonce = none;
  sponsor_expiry = none;
  sponsor_policy_hash = none;
  terminal_class = none;
  trust_tier = none;
}

abbrev cache : LruMap Bool
cache = record { entries = []; max_size = 8192 }

cache-IsCoherent : IsCoherent cache
unfolding find
cache-IsCoherent = record {
  valid = record {
    bound = omega arith;
    bounded = omega arith;
    distinct = tt;
    nonempty_keys = refl;
  };
  right = λ a s v e. cc;
}

assert_transaction_native_lem_example :
    IsCoherent (assert_transaction_native transfer cache).1
    × (((assert_transaction_native transfer cache).0 ≡ ok tt) ↔ (is_well_formed transfer ≡ true))
assert_transaction_native_lem_example =
    assert_transaction_native_lem transfer cache cache-IsCoherent

serialize_transaction_places_example :
    IsCoherent (serialize_transaction transfer absent cache).1
    × (is_well_formed transfer ≡ true
        → IsSerialized transfer absent (serialize_transaction transfer absent cache).0)
    × (is_well_formed transfer ≡ false
        → (e : Error) × ((serialize_transaction transfer absent cache).0 ≡ err e))
serialize_transaction_places_example =
    serialize_transaction_places transfer absent cache cache-IsCoherent
