-- ===== src/Windows/Record.antt =====
-- USN records of version 2 and pages of them (crates/windows-fs/src/record.rs). The conversion of
-- UTF-16 is the standard library's and a parameter. Offsets into a buffer in memory do not overflow.
pub mod Bounds
use local_search.Prelude.{
  ℕ, zero, suc, ◌+◌, ◌-◌, ◌*◌, ◌%◌, ◌^◌, Bool, not, ◌||◌, ◌&&◌, Option, none, some, List, [], ◌∷◌,
  String, length, take, drop, ltb, leb, ◌==◌, if◌then◌else◌, ℤ, pos, negsuc, Result, ok, err, ◌>>=◌,
  ◌>>◌, reject_if, ok_or,
}
use local_search.Core.Models.{Text}
use local_search.Platform.{PlatformError, PlatformErrorKind, PlatformResult}
use local_search.Wire.Frame.{le_value}

abbrev pub v2_fixed_bytes : ℕ
v2_fixed_bytes = 60

abbrev pub max_record_bytes : ℕ
max_record_bytes = 1048576

pub record SanitizedUsnRecord : Type 0 where
  pub file_reference : ℕ  -- u64
  pub parent_reference : ℕ  -- u64
  pub position : ℤ  -- i64
  pub reason : ℕ  -- u32
  pub attributes : ℕ  -- u32
  pub name : Text
  pub had_invalid_utf16 : Bool

-- char::decode_utf16, asked for an error, and String::from_utf16_lossy
pub record Utf16 : Type 0 where
  pub is_invalid : List ℕ → Bool
  pub from_utf16_lossy : List ℕ → Text

abbrev pub malformed : String → PlatformError
malformed detail = record {
  kind = PlatformErrorKind.io;
  operation = "decode_usn_record";
  detail = detail;
}

unfoldable pub bytes : List ℕ → ℕ → ℕ → PlatformResult (List ℕ)
bytes input offset size =
    if leb (offset + size) (length input)
    then ok (take size (drop offset input))
    else err (malformed "field outside input")

-- `read_u16`, `read_u32` and `read_u64`, by the number of their bytes
unfoldable pub read_unsigned : ℕ → List ℕ → ℕ → PlatformResult ℕ
read_unsigned size input offset = do value ← bytes input offset size; ok (le_value value)

-- the two's complement of i64
unfoldable pub as_i64 : ℕ → ℤ
as_i64 value = if ltb value (2 ^ 63) then pos value else negsuc (2 ^ 64 - 1 - value)

unfoldable pub read_i64 : List ℕ → ℕ → PlatformResult ℤ
read_i64 input offset = do value ← bytes input offset 8; ok (as_i64 (le_value value))

-- `chunks_exact(2)` and `u16::from_le_bytes`
unfoldable pub units_of : List ℕ → List ℕ
units_of (low ∷ high ∷ rest) = (low + 256 * high) ∷ units_of rest
units_of _ = []

abbrev pub length_refused : ℕ → ℕ → Bool
length_refused size available =
    ltb size v2_fixed_bytes
    || ltb max_record_bytes size
    || ltb available size
    || not (size % 8 == 0)

abbrev pub name_refused : ℕ → ℕ → ℕ → Bool
name_refused name_len name_offset size =
    not (name_len % 2 == 0) || ltb name_offset v2_fixed_bytes || ltb size (name_offset + name_len)

module _ (utf16 : Utf16) where
  -- the record's fields, after its tests
  unfoldable pub read_fields : List ℕ → List ℕ → PlatformResult SanitizedUsnRecord
  read_fields input units = do
    file_reference ← read_unsigned 8 input 8
    parent_reference ← read_unsigned 8 input 16
    position ← read_i64 input 24
    reason ← read_unsigned 4 input 40
    attributes ← read_unsigned 4 input 52
    ok (record {
      file_reference = file_reference;
      parent_reference = parent_reference;
      position = position;
      reason = reason;
      attributes = attributes;
      name = utf16.from_utf16_lossy units;
      had_invalid_utf16 = utf16.is_invalid units;
    })

  unfoldable pub decode_v2 : List ℕ → PlatformResult (SanitizedUsnRecord × ℕ)
  decode_v2 input = do
    size ← read_unsigned 4 input 0
    reject_if (length_refused size (length input))
        (malformed "invalid, truncated, oversized, or misaligned record length")
    version ← read_unsigned 2 input 4
    reject_if (not (version == 2)) (record {
      kind = PlatformErrorKind.unsupported;
      operation = "decode_usn_record";
      detail = "only USN record version 2 is supported by this spike";
    })
    name_len ← read_unsigned 2 input 56
    name_offset ← read_unsigned 2 input 58
    reject_if (name_refused name_len name_offset size)
        (malformed "filename range is outside the record")
    decoded ← read_fields input (units_of (take name_len (drop name_offset input)))
    ok (decoded, size)

  abbrev pub push :
      SanitizedUsnRecord
      → Option (PlatformResult (List SanitizedUsnRecord))
      → Option (PlatformResult (List SanitizedUsnRecord))
  push decoded none = none
  push decoded (some (err error)) = some (err error)
  push decoded (some (ok records)) = some (ok (decoded ∷ records))

  abbrev pub follow :
      PlatformResult (SanitizedUsnRecord × ℕ)
      → (ℕ → Option (PlatformResult (List SanitizedUsnRecord)))
      → Option (PlatformResult (List SanitizedUsnRecord))
  follow (err error) next = some (err error)
  follow (ok (decoded, consumed)) next = push decoded (next consumed)

  -- The loop of `decode_page` over what is left of its input; `none` when the fuel is used up.
  unfoldable pub decode_records : ℕ → List ℕ → Option (PlatformResult (List SanitizedUsnRecord))
  decode_records zero rest = none
  decode_records (suc fuel) [] = some (ok [])
  decode_records (suc fuel) (b ∷ bs) =
      follow (decode_v2 (b ∷ bs)) (λ consumed. decode_records fuel (drop consumed (b ∷ bs)))

  abbrev pub with_position :
      ℤ
      → Option (PlatformResult (List SanitizedUsnRecord))
      → Option (PlatformResult (ℤ × List SanitizedUsnRecord))
  with_position next_position none = none
  with_position next_position (some (err error)) = some (err error)
  with_position next_position (some (ok records)) = some (ok (next_position, records))

  abbrev pub page_from :
      List ℕ → PlatformResult ℤ → Option (PlatformResult (ℤ × List SanitizedUsnRecord))
  page_from input (err error) = some (err error)
  page_from input (ok next_position) =
      with_position next_position (decode_records (length input + 1) (drop 8 input))

  unfoldable pub decode_page : List ℕ → Option (PlatformResult (ℤ × List SanitizedUsnRecord))
  decode_page input = page_from input (read_i64 input 0)
