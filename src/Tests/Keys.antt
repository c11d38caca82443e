-- ===== src/Tests/Keys.antt =====
-- A key of crates/common/src/key.rs, with one UUID.
use bot_flow.Prelude.{ℕ, Text, codes, Option, some, ◌≡◌, refl, true}
use bot_flow.Keys.{object_key, is_valid_slug, parse_key}
use bot_flow.Keys.RoundTrip.{parse_key-object_key}
use bot_flow.Tests.{acme}

abbrev print : ℕ → Text
print id = codes "7045945d-3a0e-4b69-9749-326871ef7516"

abbrev parse : Text → Option ℕ
parse t = some 7

valid : is_valid_slug acme ≡ true
unfolding is_valid_slug
valid = refl

parse_key-object_key_example :
    parse_key parse (object_key print acme 7 (codes "pdf")) ≡ some (acme, 7)
parse_key-object_key_example =
    parse_key-object_key print parse acme 7 (codes "pdf") valid refl refl refl
