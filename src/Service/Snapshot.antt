-- ===== src/Service/Snapshot.antt =====
-- `snapshot` and `scrubSnapshot` of internal/service/route_service.go, which prepare a document for
-- the audit log.
pub mod Laws
use Prim.Native.Char.{code}
use gb_522_a16g.Base.{
  ℕ, ◌+◌, String, Bool, true, false, ◌||◌, ◌&&◌, not, List, [], ◌∷◌, map, leb, ◌==◌, if◌then◌else◌,
}
use gb_522_a16g.Float.{Float64}
use gb_522_a16g.Json.{
  Value, null, unreadable, bool, num, int, text, arr, obj, Items, empty, item, Fields, end, field,
}

-- The characters of a text.
abbrev pub codes : String → List ℕ
codes String.[] = []
codes (String.◌∷◌ c s) = code c ∷ codes s

-- strings.ToLower on an ASCII key.
abbrev lower : ℕ → ℕ
lower c = if leb b'A' c && leb c b'Z' then c + 32 else c

-- The two strings.ReplaceAll: "-" and " " become "_".
abbrev underscored : ℕ → ℕ
underscored c = if c == b'-' || c == b' ' then b'_' else c

abbrev has_prefix : List ℕ → List ℕ → Bool
has_prefix s [] = true
has_prefix [] (p ∷ ps) = false
has_prefix (c ∷ s) (p ∷ ps) = c == p && has_prefix s ps

-- strings.Contains
abbrev contains : List ℕ → List ℕ → Bool
contains [] token = has_prefix [] token
contains (c ∷ s) token = has_prefix (c ∷ s) token || contains s token

abbrev contains_any : List ℕ → List String → Bool
contains_any s [] = false
contains_any s (token ∷ tokens) = contains s (codes token) || contains_any s tokens

abbrev sensitive_tokens : List String
sensitive_tokens =
    "password" ∷ "passwd" ∷ "token" ∷ "authorization" ∷ "secret" ∷ "credential" ∷ "private_key"
    ∷ "apikey" ∷ "api_key" ∷ []

unfoldable pub sensitive : String → Bool
sensitive key = contains_any (map lower (map underscored (codes key))) sensitive_tokens

abbrev pub redacted : {F : Type 0} → Value F
redacted = text "[REDACTED]"

-- `walk`, on a document, on the elements of an array and on the entries of an object.
unfoldable mutual
  pub scrub : {F : Type 0} → Value F → Value F
  scrub (obj fields) = obj (scrub_fields fields)
  scrub (arr items) = arr (scrub_items items)
  scrub null = null
  scrub unreadable = unreadable
  scrub (bool b) = bool b
  scrub (num x) = num x
  scrub (int n) = int n
  scrub (text s) = text s

  pub scrub_items : {F : Type 0} → Items F → Items F
  scrub_items empty = empty
  scrub_items (item v rest) = item (scrub v) (scrub_items rest)

  pub scrub_fields : {F : Type 0} → Fields F → Fields F
  scrub_fields end = end
  scrub_fields (field key v rest) =
      field key (if sensitive key then redacted else scrub v) (scrub_fields rest)

-- json.Marshal fails on a number that is NaN or infinite, and on a stored text that is no JSON.
unfoldable mutual
  pub encodable : {F : Type 0} ⦃fl : Float64 F⦄ → Value F → Bool
  encodable ⦃fl⦄ (num x) = not (fl.is_nan x) && not (fl.is_inf x)
  encodable (obj fields) = encodable_fields fields
  encodable (arr items) = encodable_items items
  encodable null = true
  encodable unreadable = false
  encodable (bool b) = true
  encodable (int n) = true
  encodable (text s) = true

  pub encodable_items : {F : Type 0} ⦃fl : Float64 F⦄ → Items F → Bool
  encodable_items empty = true
  encodable_items (item v rest) = encodable v && encodable_items rest

  pub encodable_fields : {F : Type 0} ⦃fl : Float64 F⦄ → Fields F → Bool
  encodable_fields end = true
  encodable_fields (field key v rest) = encodable v && encodable_fields rest

unfoldable pub snapshot : {F : Type 0} ⦃fl : Float64 F⦄ → Value F → Value F
snapshot value =
    if encodable value
    then scrub value
    else obj (field "summary_error" (text "json: unsupported value") end)
