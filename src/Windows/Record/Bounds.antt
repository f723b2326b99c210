-- ===== src/Windows/Record/Bounds.antt =====
-- What a decoded USN page promises (crates/windows-fs/src/record.rs).
use local_search.Prelude.{
  ℕ, zero, suc, ◌+◌, ◌%◌, ◌≤◌, ◌<◌, ◌≡◌, refl, ap, not, Option, none, some, List, [], ◌∷◌, length,
  length-drop, drop, take, ◌==◌, ℤ, ok, err, ok_of-bind, reject_if, arith,
}
use local_search.Platform.{PlatformError, PlatformResult}
use local_search.Windows.Record.{
  SanitizedUsnRecord, Utf16, name_refused, v2_fixed_bytes, max_record_bytes, read_unsigned,
  read_i64, length_refused, read_fields, units_of, decode_v2, push, follow, decode_records,
  with_position, page_from, decode_page,
}

-- The size of a record: within its bounds and its input, and a multiple of eight.
abbrev pub IsRecordSize : ℕ → ℕ → Type 0
IsRecordSize available size =
    (v2_fixed_bytes ≤ size) × (size ≤ max_record_bytes) × (size ≤ available) × (size % 8 ≡ 0)

length_refused-IsRecordSize :
    (size available : ℕ) (reason : PlatformError)
    → reject_if (length_refused size available) reason ≡ ok tt
    → IsRecordSize available size
length_refused-IsRecordSize size available reason h = ground (arith, h)

abbrev size_of : PlatformResult (SanitizedUsnRecord × ℕ) → ℕ
size_of (ok (decoded, size)) = size
size_of (err error) = 0

module _ (utf16 : Utf16) where
  -- Whatever its input, a record that is decoded has taken between 60 and 1,048,576 bytes of it, a
  -- multiple of eight and no more than there are.
  pub decode_v2-IsRecordSize :
      (input : List ℕ) (decoded : SanitizedUsnRecord) (size : ℕ)
      → decode_v2 utf16 input ≡ ok (decoded, size)
      → IsRecordSize (length input) size
  unfolding decode_v2
  decode_v2-IsRecordSize input decoded size h =
      let record { value = read; first = p; then = h1 } =
        ok_of-bind (read_unsigned 4 input 0) _ h in
      let record { value = u; first = fits; then = h2 } =
        ok_of-bind (reject_if (length_refused read (length input)) _) _ h1 in
      let record { value = version; first = q; then = h3 } =
        ok_of-bind (read_unsigned 2 input 4) _ h2 in
      let record { value = u'; first = r; then = h4 } =
        ok_of-bind (reject_if (not (version == 2)) _) _ h3 in
      let record { value = name_len; first = s; then = h5 } =
        ok_of-bind (read_unsigned 2 input 56) _ h4 in
      let record { value = name_offset; first = t; then = h6 } =
        ok_of-bind (read_unsigned 2 input 58) _ h5 in
      let record { value = u''; first = v; then = h7 } =
        ok_of-bind (reject_if (name_refused name_len name_offset read) _) _ h6 in
      let record { value = fields; first = w; then = h8 } =
        ok_of-bind (read_fields utf16 input (units_of (take name_len (drop name_offset input)))) _
          h7 in
      let same : read ≡ size = ap size_of h8 in
      rw (← same) (length_refused-IsRecordSize read (length input) _ fits)

  -- The records cover the bytes: each is decoded where the one before it ends, and nothing is left.
  abbrev pub Covers : List SanitizedUsnRecord → List ℕ → Type 0
  Covers [] rest = rest ≡ []
  Covers (decoded ∷ records) rest =
      (size : ℕ) × (decode_v2 utf16 rest ≡ ok (decoded, size))
      × IsRecordSize (length rest) size
      × Covers records (drop size rest)

  -- an end of the loop: all records, or the first error
  abbrev pub Ends : List ℕ → Option (PlatformResult (List SanitizedUsnRecord)) → Type 0
  Ends rest none = ⊥
  Ends rest (some (ok records)) = Covers records rest
  Ends rest (some (err error)) = Unit

  push-Ends :
      (rest : List ℕ) (decoded : SanitizedUsnRecord) (size : ℕ)
      (later : Option (PlatformResult (List SanitizedUsnRecord)))
      → decode_v2 utf16 rest ≡ ok (decoded, size)
      → Ends (drop size rest) later
      → Ends rest (push utf16 decoded later)
  push-Ends rest decoded size none h e = e
  push-Ends rest decoded size (some (err error)) h e = tt
  push-Ends rest decoded size (some (ok records)) h e =
      (size, h, decode_v2-IsRecordSize rest decoded size h, e)

  follow-Ends :
      (fuel : ℕ) (rest : List ℕ) (r : PlatformResult (SanitizedUsnRecord × ℕ))
      → decode_v2 utf16 rest ≡ r
      → length rest ≤ fuel
      → ((size : ℕ)
          → length (drop size rest) < fuel
          → Ends (drop size rest) (decode_records utf16 fuel (drop size rest)))
      → Ends rest (follow utf16 r (λ size. decode_records utf16 fuel (drop size rest)))
  follow-Ends fuel rest (err error) h l next = tt
  follow-Ends fuel rest (ok (decoded, size)) h l next = push-Ends rest decoded size _ h (
      next size
        (omega (arith, l, length-drop size rest, decode_v2-IsRecordSize rest decoded size h)))

  decode_records-Ends :
      (fuel : ℕ) (rest : List ℕ) → length rest < fuel → Ends rest (decode_records utf16 fuel rest)
  unfolding decode_records
  decode_records-Ends zero rest l = ground (arith, l)
  decode_records-Ends (suc fuel) [] l = refl
  decode_records-Ends (suc fuel) (b ∷ bs) l =
      follow-Ends fuel (b ∷ bs) (decode_v2 utf16 (b ∷ bs)) refl (omega (arith, l))
        (λ size k. decode_records-Ends fuel (drop size (b ∷ bs)) k)

  -- What `decode_page` returns: an error, or the position of the header and records that cover the
  -- rest of the page.
  abbrev pub IsPage : List ℕ → Option (PlatformResult (ℤ × List SanitizedUsnRecord)) → Type 0
  IsPage input none = ⊥
  IsPage input (some (ok (next_position, records))) =
      (read_i64 input 0 ≡ ok next_position) × Covers records (drop 8 input)
  IsPage input (some (err error)) = Unit

  with_position-IsPage :
      (input : List ℕ) (next_position : ℤ) (r : Option (PlatformResult (List SanitizedUsnRecord)))
      → read_i64 input 0 ≡ ok next_position
      → Ends (drop 8 input) r
      → IsPage input (with_position utf16 next_position r)
  with_position-IsPage input next_position none h e = e
  with_position-IsPage input next_position (some (ok records)) h e = (h, e)
  with_position-IsPage input next_position (some (err error)) h e = tt

  page_from-IsPage :
      (input : List ℕ) (r : PlatformResult ℤ)
      → read_i64 input 0 ≡ r
      → IsPage input (page_from utf16 input r)
  page_from-IsPage input (err error) h = tt
  page_from-IsPage input (ok next_position) h =
      with_position-IsPage input next_position _ h
        (decode_records-Ends (length input + 1) (drop 8 input) (omega (arith, length-drop 8 input)))

  -- Decoding a page returns for every input. Where it succeeds, the position is the header's and the
  -- records cover all bytes after the header, each decoded where the one before it ends, of at least
  -- 60 bytes and within the page.
  pub decode_page-IsPage : (input : List ℕ) → IsPage input (decode_page utf16 input)
  unfolding decode_page
  decode_page-IsPage input = page_from-IsPage input (read_i64 input 0) refl
