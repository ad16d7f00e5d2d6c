-- ===== src/Shared/FileNames.antt =====
-- shared/src/schemas.ts: `sanitizeFileName`, and the schemas of a file name and of the metadata of
-- a file.
pub mod Sanitized
pub mod Safe
use file_share_app.Base.{
  ℕ, ◌+◌, Bool, true, false, ◌&&◌, ◌||◌, not, List, [], ◌∷◌, map, length, take, Option, none, some,
  eqb, ltb, leb, Utf16, utf16_eq, units, ◌==◌, ◌>>=◌, if◌then◌else◌,
}
use file_share_app.Shared.Constants.{max_filename_length}
use file_share_app.Shared.Json.{Json, number, string, property}
use file_share_app.Shared.Schemas.{bounded_string, optional}

-- `/` is unit 47, `\` is 92, `.` is 46 and `_` is 95.
abbrev pub is_separator : ℕ → Bool
is_separator u = eqb u 47 || eqb u 92

-- `replace(/[/\\]/g, "_")`
unfoldable pub replace_separators : Utf16 → Utf16
replace_separators = map (λ u. if is_separator u then 95 else u)

-- `replace(/\.\.+/g, "_")`, with the dots that were read just before: none, one, or a run.
pub data Dots : Type 0 where
  no_dot one_dot run_of_dots : Dots

abbrev after_dots : Dots → Utf16 → Utf16
after_dots no_dot rest = rest
after_dots one_dot rest = 46 ∷ rest
after_dots run_of_dots rest = 95 ∷ rest

abbrev one_more : Dots → Dots
one_more no_dot = one_dot
one_more _ = run_of_dots

unfoldable pub replace_dots_after : Dots → Utf16 → Utf16
replace_dots_after dots [] = after_dots dots []
replace_dots_after dots (u ∷ us) =
    let more = replace_dots_after (one_more dots) us in
    let rest = replace_dots_after no_dot us in if eqb u 46 then more else after_dots dots (u ∷ rest)

-- White space and line ends of the language, as `trim` has them.
abbrev pub is_space : ℕ → Bool
is_space u =
    (leb 9 u && leb u 13 || eqb u 32 || eqb u 160 || eqb u 5760)
    || (leb 8192 u && leb u 8202 || eqb u 8232 || eqb u 8233 || eqb u 8239 || eqb u 8287)
    || (eqb u 12288 || eqb u 65279)

unfoldable pub trim_start : Utf16 → Utf16
trim_start [] = []
trim_start (u ∷ us) = let rest = trim_start us in if is_space u then rest else u ∷ us

abbrev put_unless_blank : Bool → ℕ → Utf16 → Utf16
put_unless_blank space u (v ∷ vs) = u ∷ v ∷ vs
put_unless_blank space u [] = if space then [] else u ∷ []

unfoldable pub trim_end : Utf16 → Utf16
trim_end [] = []
trim_end (u ∷ us) = put_unless_blank (is_space u) u (trim_end us)

abbrev or_unnamed : Utf16 → Utf16
or_unnamed [] = units "unnamed_file"
or_unnamed (u ∷ us) = u ∷ us

unfoldable pub sanitize_file_name : Utf16 → Utf16
unfolding replace_separators replace_dots_after trim_start trim_end
sanitize_file_name name = or_unnamed (
    take max_filename_length
      (trim_end (trim_start (replace_dots_after no_dot (replace_separators name)))))

-- `name.includes(unit)`
abbrev pub includes_unit : ℕ → Utf16 → Bool
includes_unit u [] = false
includes_unit u (v ∷ vs) = eqb u v || includes_unit u vs

abbrev pub safe_name : Option Utf16 → Option Utf16
safe_name none = none
safe_name (some name) =
    if includes_unit 47 name || includes_unit 92 name
    then none
    else if name == units "." || name == units ".."
    then none
    else some name

-- safeFileNameSchema
unfoldable pub safe_file_name : Option Json → Option Utf16
unfolding bounded_string
safe_file_name v = safe_name (bounded_string 1 max_filename_length v)

-- `z.number().int().nonnegative()`, or `.positive()` from 1 on.
unfoldable pub natural_from : ℕ → Option Json → Option ℕ
natural_from low (some (number n)) = if leb low n then some n else none
natural_from low _ = none

abbrev is_hex_digit : ℕ → Bool
is_hex_digit u = leb 48 u && leb u 57 || (leb 97 u && leb u 102 || leb 65 u && leb u 70)

abbrev all_hex : Utf16 → Bool
all_hex [] = true
all_hex (u ∷ us) = is_hex_digit u && all_hex us

-- `.regex(/^[a-f0-9]{64}$/i)`
unfoldable pub checksum_text : Option Json → Option Utf16
checksum_text (some (string s)) = if eqb (length s) 64 && all_hex s then some s else none
checksum_text _ = none

pub record FileMetadata : Type 0 where
  pub id : Utf16
  pub name : Utf16
  pub size : ℕ
  pub mime_type : Utf16
  pub last_modified : ℕ
  pub total_chunks : ℕ
  pub chunk_size : ℕ
  pub relative_path : Option Utf16
  pub checksum : Option Utf16

abbrev of : Utf16 → Option Json → Option Json
of name none = none
of name (some v) = property name v

-- fileMetadataSchema
unfoldable pub file_metadata : Option Json → Option FileMetadata
unfolding bounded_string safe_file_name natural_from optional checksum_text property
file_metadata v = do
  id ← bounded_string 1 128 (of (units "id") v)
  name ← safe_file_name (of (units "name") v)
  size ← natural_from 0 (of (units "size") v)
  mime_type ← bounded_string 0 255 (of (units "type") v)
  last_modified ← natural_from 0 (of (units "lastModified") v)
  total_chunks ← natural_from 1 (of (units "totalChunks") v)
  chunk_size ← natural_from 1 (of (units "chunkSize") v)
  relative_path ← optional (bounded_string 0 1024) (of (units "relativePath") v)
  checksum ← optional checksum_text (of (units "checksum") v)
  some (record {
    id = id;
    name = name;
    size = size;
    mime_type = mime_type;
    last_modified = last_modified;
    total_chunks = total_chunks;
    chunk_size = chunk_size;
    relative_path = relative_path;
    checksum = checksum;
  })
