-- ===== src/Address/Tests.antt =====
-- Runs of the address functions, with caches that calls have filled.
use tosdk.Prelude.{◌≡◌, true, Bool, ◌&&◌, ◌||◌, not, ◌++◌, some, none, if◌then◌else◌, replicate}
use tosdk.Prelude.Results.{ok, err, invalid_address}
use tosdk.Strings.{Text, prefix_0x, text_eq, to_lower_case}
use tosdk.Lru.{LruMap}
use tosdk.Address.{address_regex, is_address, get_address, is_address_equal}
use tosdk.Address.Fixtures.{fresh, fresh-IsCoherent, fresh-IsCanonical}
use tosdk.Address.Cached.{IsCoherent, is_address_lem}
use tosdk.Address.Canonical.{IsCanonical, get_address_lem, is_address_equal_lem}

abbrev upper : Text
upper = prefix_0x ++ replicate 64 b'A'

abbrev small : Text
small = prefix_0x ++ replicate 64 b'a'

-- A cache that has the answer for `upper`.
abbrev asked : LruMap Bool
asked = (is_address upper none fresh.is_address_cache).1

asked-IsCoherent : IsCoherent asked
asked-IsCoherent = (is_address_lem upper none fresh.is_address_cache fresh-IsCoherent).1

is_address_lem_example :
    ((is_address upper none asked).0
      ≡ address_regex upper && (not true || text_eq (to_lower_case upper) upper))
    × IsCoherent (is_address upper none asked).1
is_address_lem_example = is_address_lem upper none asked asked-IsCoherent

get_address_lem_example :
    ((get_address upper (some 1) fresh).0
      ≡ (if address_regex upper then ok (to_lower_case upper) else err invalid_address))
    × IsCoherent (get_address upper (some 1) fresh).1.is_address_cache
    × IsCanonical (get_address upper (some 1) fresh).1.checksum_address_cache
get_address_lem_example = get_address_lem upper (some 1) fresh fresh-IsCoherent fresh-IsCanonical

is_address_equal_lem_example :
    ((is_address_equal upper small asked).0 ≡ (
      if address_regex upper && address_regex small
      then ok (text_eq (to_lower_case upper) (to_lower_case small))
      else err invalid_address))
    × IsCoherent (is_address_equal upper small asked).1
is_address_equal_lem_example = is_address_equal_lem upper small asked asked-IsCoherent
