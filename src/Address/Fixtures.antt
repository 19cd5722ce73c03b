-- ===== src/Address/Fixtures.antt =====
-- The caches of the addresses before any call (isAddress.ts, getAddress.ts).
use tosdk.Prelude.{refl, arith, []}
use tosdk.Lru.{find}
use tosdk.Address.{Caches}
use tosdk.Address.Cached.{IsCoherent}
use tosdk.Address.Canonical.{IsCanonical}

abbrev pub fresh : Caches
fresh = record {
  is_address_cache = record { entries = []; max_size = 8192 };
  checksum_address_cache = record { entries = []; max_size = 8192 };
}

pub fresh-IsCoherent : IsCoherent fresh.is_address_cache
unfolding find
fresh-IsCoherent = record {
  valid = record {
    bound = omega arith;
    bounded = omega arith;
    distinct = tt;
    nonempty_keys = refl;
  };
  right = λ a s v e. cc;
}

pub fresh-IsCanonical : IsCanonical fresh.checksum_address_cache
unfolding find
fresh-IsCanonical = record {
  valid = record {
    bound = omega arith;
    bounded = omega arith;
    distinct = tt;
    nonempty_keys = refl;
  };
  right = λ key v e. absurd (ground (arith, e));
}
