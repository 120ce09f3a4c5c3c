-- ===== src/Service/Snapshot/Laws.antt =====
-- No secret passes the scrubbing, at any depth.
use gb_522_a16g.Base.{◌≡◌, refl, inl, inr, true, Bool-cases, ap, ap₂, sym}
use gb_522_a16g.Float.{Float64}
use gb_522_a16g.Json.{
  Value, null, unreadable, bool, num, int, text, arr, obj, Items, empty, item, Fields, end, field,
}
use gb_522_a16g.Service.Snapshot.{
  sensitive, redacted, scrub, scrub_items, scrub_fields, snapshot, encodable,
}

-- Every entry under a sensitive key, at any depth, holds the redaction mark.
unfoldable mutual
  pub IsClean : {F : Type 0} → Value F → Type 0
  IsClean (obj fields) = IsCleanFields fields
  IsClean (arr items) = IsCleanItems items
  IsClean _ = Unit

  pub IsCleanItems : {F : Type 0} → Items F → Type 0
  IsCleanItems empty = Unit
  IsCleanItems (item v rest) = IsClean v × IsCleanItems rest

  pub IsCleanFields : {F : Type 0} → Fields F → Type 0
  IsCleanFields end = Unit
  IsCleanFields (field key v rest) =
      (sensitive key ≡ true → v ≡ redacted) × IsClean v × IsCleanFields rest

mutual
  unfolding scrub IsClean

  scrub-IsClean' : {F : Type 0} (v : Value F) → IsClean (scrub v)
  scrub-IsClean' (obj fields) = scrub_fields-clean fields
  scrub-IsClean' (arr items) = scrub_items-clean items
  scrub-IsClean' null = tt
  scrub-IsClean' unreadable = tt
  scrub-IsClean' (bool b) = tt
  scrub-IsClean' (num x) = tt
  scrub-IsClean' (int n) = tt
  scrub-IsClean' (text s) = tt

  scrub_items-clean : {F : Type 0} (items : Items F) → IsCleanItems (scrub_items items)
  scrub_items-clean empty = tt
  scrub_items-clean (item v rest) = (scrub-IsClean' v, scrub_items-clean rest)

  scrub_fields-clean : {F : Type 0} (fields : Fields F) → IsCleanFields (scrub_fields fields)
  scrub_fields-clean end = tt
  scrub_fields-clean (field key v rest) = elim (Bool-cases (sensitive key)) [
    | inl hidden ↦ rw hidden ((λ h. refl), tt, scrub_fields-clean rest)
    | inr plain ↦ rw plain ((λ h. cc), scrub-IsClean' v, scrub_fields-clean rest)
  ]

mutual
  unfolding scrub IsClean

  clean-scrub : {F : Type 0} (v : Value F) → IsClean v → scrub v ≡ v
  clean-scrub (obj fields) h = ap obj (clean-scrub_fields fields h)
  clean-scrub (arr items) h = ap arr (clean-scrub_items items h)
  clean-scrub null h = refl
  clean-scrub unreadable h = refl
  clean-scrub (bool b) h = refl
  clean-scrub (num x) h = refl
  clean-scrub (int n) h = refl
  clean-scrub (text s) h = refl

  clean-scrub_items :
      {F : Type 0} (items : Items F) → IsCleanItems items → scrub_items items ≡ items
  clean-scrub_items empty h = refl
  clean-scrub_items (item v rest) (h, hs) = ap₂ item (clean-scrub v h) (clean-scrub_items rest hs)

  clean-scrub_fields :
      {F : Type 0} (fields : Fields F) → IsCleanFields fields → scrub_fields fields ≡ fields
  clean-scrub_fields end h = refl
  clean-scrub_fields (field key v rest) (mark, h, hs) = elim (Bool-cases (sensitive key)) [
    | inl hidden ↦ rw hidden (ap₂ (field key) (sym (mark hidden)) (clean-scrub_fields rest hs))
    | inr plain ↦ rw plain (ap₂ (field key) (clean-scrub v h) (clean-scrub_fields rest hs))
  ]

-- Scrubbing leaves the redaction mark, and nothing else, under every sensitive key at every depth,
-- and it changes nothing in a document where that is so already; so scrubbing twice is scrubbing
-- once.
pub scrub-IsClean :
    {F : Type 0} (v : Value F)
    → IsClean (scrub v) × (IsClean v → scrub v ≡ v) × (scrub (scrub v) ≡ scrub v)
scrub-IsClean v = (scrub-IsClean' v, clean-scrub v, clean-scrub (scrub v) (scrub-IsClean' v))

-- A snapshot never shows a value under a sensitive key, also when the document cannot be encoded.
pub snapshot-IsClean : {F : Type 0} ⦃fl : Float64 F⦄ (v : Value F) → IsClean (snapshot v)
unfolding snapshot IsClean sensitive
snapshot-IsClean v = elim (Bool-cases (encodable v)) [
  | inl fits ↦ rw fits (scrub-IsClean' v)
  | inr not_fits ↦ rw not_fits ((λ h. cc), tt, tt)
]
