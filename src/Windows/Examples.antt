-- ===== src/Windows/Examples.antt =====
-- The theorems on USN pages at concrete inputs.
use local_search.Prelude.{
  ℕ, ◌≡◌, refl, List, [], ◌∷◌, ◌++◌, replicate, length, pos, ok, some, false,
}
use local_search.Wire.Frame.{le_value}
use local_search.Windows.Record.{
  SanitizedUsnRecord, Utf16, bytes, read_unsigned, read_i64, as_i64, units_of, read_fields,
  decode_v2, decode_records, decode_page,
}
use local_search.Windows.Record.Bounds.{
  IsRecordSize, IsPage, decode_v2-IsRecordSize, decode_page-IsPage,
}

-- A conversion that stands for the library's: the units as they are, none of them invalid.
abbrev verbatim : Utf16
verbatim = record { is_invalid = λ units. false; from_utf16_lossy = λ units. units }

-- A record of 64 bytes with the name "a".
abbrev one : List ℕ
one =
    64 ∷ 0 ∷ 0 ∷ 0 ∷ 2 ∷ 0 ∷ 0 ∷ 0 ∷ 5 ∷ replicate 7 0
    ++ 6 ∷ replicate 7 0
    ++ 9 ∷ replicate 15 0
    ++ 0 ∷ 1 ∷ replicate 10 0
    ++ 32 ∷ 0 ∷ 0 ∷ 0 ∷ 2 ∷ 0 ∷ 60 ∷ 0 ∷ 97 ∷ 0 ∷ 0 ∷ 0 ∷ []

abbrev decoded : SanitizedUsnRecord
decoded = record {
  file_reference = 5;
  parent_reference = 6;
  position = pos 9;
  reason = 256;
  attributes = 32;
  name = 97 ∷ [];
  had_invalid_utf16 = false;
}

decode_v2-IsRecordSize_example : IsRecordSize (length one) 64
unfolding decode_v2 read_fields read_unsigned read_i64 as_i64 bytes units_of le_value
decode_v2-IsRecordSize_example = decode_v2-IsRecordSize verbatim one decoded 64 refl

abbrev page : List ℕ
page = 200 ∷ replicate 7 0 ++ one ++ one

decode_page-IsPage_example : IsPage verbatim page (decode_page verbatim page)
decode_page-IsPage_example = decode_page-IsPage verbatim page

decode_page_two : decode_page verbatim page ≡ some (ok (pos 200, decoded ∷ decoded ∷ []))
unfolding decode_page decode_records decode_v2 read_fields read_unsigned read_i64 as_i64 bytes
    units_of le_value
decode_page_two = refl
