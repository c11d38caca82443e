-- ===== src/Keys.antt =====
-- crates/common/src/key.rs: how object keys are built and read. What `std::path` calls the extension
-- of a file name, `str::to_lowercase`, and how a UUID is printed and parsed are arguments.
pub mod RoundTrip
use bot_flow.Prelude.{
  ℕ, Text, text_eq, codes, String, Option, none, some, List, [], ◌∷◌, ◌++◌, Bool, true, false, not,
  ◌&&◌, ◌||◌, ◌==◌, leb, length, all, is_empty, starts_with, if◌then◌else◌,
}
use bot_flow.Chunk.{split_at}

unfoldable pub object_key : (ℕ → Text) → Text → ℕ → Text → Text
object_key uuid_text tenant id ext =
    codes "tenants"
    ++ 47
      ∷ (tenant
          ++ 47 ∷ (codes "documents" ++ 47 ∷ (uuid_text id ++ 47 ∷ (codes "original." ++ ext))))

unfoldable pub is_allowed : Text → Bool
is_allowed ext = text_eq ext (codes "pdf") || text_eq ext (codes "txt") || text_eq ext (codes "md")

unfoldable pub extension_of : (Text → Option Text) → (Text → Text) → Text → Option Text
unfolding is_allowed
extension_of path_extension to_lowercase filename = elim (path_extension filename) [
  | none ↦ none
  | some e ↦ if is_allowed (to_lowercase e) then some (to_lowercase e) else none
]

unfoldable pub content_type_for : Text → String
content_type_for ext =
    if text_eq ext (codes "pdf")
    then "application/pdf"
    else if text_eq ext (codes "md")
    then "text/markdown"
    else "text/plain"

abbrev pub is_slug_start : ℕ → Bool
is_slug_start c = (leb 97 c && leb c 122) || (leb 48 c && leb c 57)

abbrev pub is_slug_char : ℕ → Bool
is_slug_char c = is_slug_start c || c == 45

abbrev pub starts_slug : Text → Bool
starts_slug [] = false
starts_slug (c ∷ s) = is_slug_start c

-- The length counts bytes; all characters of a valid slug have one.
unfoldable pub is_valid_slug : Text → Bool
is_valid_slug s = not (is_empty s) && leb (length s) 63 && starts_slug s && all is_slug_char s

abbrev pub with_tenant : Text → Option ℕ → Option (Text × ℕ)
with_tenant tenant none = none
with_tenant tenant (some id) = some (tenant, id)

-- The parts between the slashes: five of them, of the shape that is minted.
unfoldable pub parse_parts : (Text → Option ℕ) → List Text → Option (Text × ℕ)
unfolding is_valid_slug
parse_parts parse_uuid (a ∷ tenant ∷ b ∷ id ∷ file ∷ []) =
    if text_eq a (codes "tenants")
      && text_eq b (codes "documents")
      && starts_with file (codes "original.")
      && is_valid_slug tenant
    then with_tenant tenant (parse_uuid id)
    else none
parse_parts parse_uuid _ = none

unfoldable pub parse_key : (Text → Option ℕ) → Text → Option (Text × ℕ)
unfolding parse_parts
parse_key parse_uuid key = parse_parts parse_uuid (split_at (codes "/") 0 [] key)
