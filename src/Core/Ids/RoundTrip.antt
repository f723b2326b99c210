-- ===== src/Core/Ids/RoundTrip.antt =====
-- Printing and parsing an identifier (crates/core/src/ids.rs) are inverse to one another.
use native.Mathlib.Nat.{mod-add-div', div-div-eq-div-mul, pow-suc}
use local_search.Prelude.{
  ℕ, String, zero, suc, ◌+◌, ◌*◌, ◌/◌, ◌%◌, ◌^◌, ◌<◌, ◌≡◌, refl, ap, ◌&&◌, not, some, List, [], ◌∷◌,
  ◌++◌, map, length, leb, ◌==◌, if◌then◌else◌, ok, ok_of-bind, ok_of-ok_or, ok_or, reject_if, arith,
}
use local_search.Core.Ids.{
  hex_length, invalid_hex, hex_nibble, strip_prefix, decode_hex, parse_id, hex_digit, encode_hex,
  display, be_bytes, be_value, from_u128, as_u128,
}

abbrev pub IsBytes : List ℕ → Type 0
IsBytes [] = Unit
IsBytes (b ∷ bs) = (b < 256) × IsBytes bs

hex_nibble-hex_digit : (d : ℕ) → d < 16 → hex_nibble (hex_digit d) ≡ some d
unfolding hex_nibble hex_digit
hex_nibble-hex_digit d h = ground arith

decode-encode :
    (kind : String) (offset : ℕ) (bytes : List ℕ)
    → IsBytes bytes
    → decode_hex kind offset (encode_hex bytes) ≡ ok bytes
unfolding decode_hex encode_hex
decode-encode kind offset [] h = refl
decode-encode kind offset (b ∷ bs) (lt, h) =
    rw
      (
        hex_nibble-hex_digit (b / 16) (omega arith),
        hex_nibble-hex_digit (b % 16) (omega arith),
        decode-encode kind (offset + 2) bs h,
      )
      (ap (λ (v : ℕ). ok (v ∷ bs)) (omega arith))

length-encode_hex : (bytes : List ℕ) → length (encode_hex bytes) ≡ 2 * length bytes
unfolding encode_hex
length-encode_hex [] = omega arith
length-encode_hex (b ∷ bs) = omega (arith, length-encode_hex bs)

strip_prefix-append : (p s : List ℕ) → strip_prefix p (p ++ s) ≡ some s
unfolding strip_prefix
strip_prefix-append [] s = refl
strip_prefix-append (c ∷ p) s = ground (arith, strip_prefix-append p s)

-- Parsing what was printed gives the sixteen bytes back, for every kind and prefix.
pub parse_id-display :
    (kind : String) (prefix bytes : List ℕ)
    → length bytes ≡ 16
    → IsBytes bytes
    → parse_id (display prefix bytes) kind prefix ≡ ok bytes
unfolding parse_id display
parse_id-display kind prefix bytes l h =
    rw (strip_prefix-append prefix (encode_hex bytes))
      (ground (arith, length-encode_hex bytes, decode-encode kind 0 bytes h))

abbrev pub to_lower : ℕ → ℕ
to_lower c = if leb b'A' c && leb c b'F' then c + 32 else c

hex_digit-hex_nibble : (c d : ℕ) → hex_nibble c ≡ some d → (hex_digit d ≡ to_lower c) × (d < 16)
unfolding hex_nibble hex_digit
hex_digit-hex_nibble c d h = ground arith

strip_prefix_lem : (p s t : List ℕ) → strip_prefix p s ≡ some t → s ≡ p ++ t
unfolding strip_prefix
strip_prefix_lem [] s t h = cc
strip_prefix_lem (c ∷ p) [] t h = cc
strip_prefix_lem (c ∷ p) (d ∷ s) t h = ground (arith, strip_prefix_lem p s t)

decode_hex_lem :
    (kind : String) (n offset : ℕ) (payload bytes : List ℕ)
    → length payload ≡ 2 * n
    → decode_hex kind offset payload ≡ ok bytes
    → (encode_hex bytes ≡ map to_lower payload) × IsBytes bytes × (length bytes ≡ n)
unfolding decode_hex encode_hex
decode_hex_lem kind zero offset [] bytes l h = let e : [] ≡ bytes = cc in rw (← e) (refl, tt, refl)
decode_hex_lem kind (suc n) offset [] bytes l h = absurd (omega arith)
decode_hex_lem kind n offset (c ∷ []) bytes l h = absurd (omega arith)
decode_hex_lem kind zero offset (c ∷ d ∷ r) bytes l h = absurd (omega arith)
decode_hex_lem kind (suc n) offset (c ∷ d ∷ r) bytes l h =
    let record { value = high; first = p; then = h1 } =
      ok_of-bind (ok_or (hex_nibble c) (invalid_hex kind offset c)) _ h in
    let record { value = low; first = q; then = h2 } =
      ok_of-bind (ok_or (hex_nibble d) (invalid_hex kind (offset + 1) d)) _ h1 in
    let record { value = rest; first = r'; then = h3 } =
      ok_of-bind (decode_hex kind (offset + 2) r) _ h2 in
    let (same, fits, long) = decode_hex_lem kind n (offset + 2) r rest (omega arith) r' in
    let (hc, hb) = hex_digit-hex_nibble c high (ok_of-ok_or _ _ p) in
    let (lc, lb) = hex_digit-hex_nibble d low (ok_of-ok_or _ _ q) in
    let e : ((high * 16 + low) ∷ rest) ≡ bytes = cc in
    let hi : (high * 16 + low) / 16 ≡ high = omega arith in
    let lo : (high * 16 + low) % 16 ≡ low = omega arith in
    rw (← e) (rw (hi, lo, hc, lc, same) (refl, (omega arith, fits), omega arith))

-- A text that parses is the prefix and hexadecimal digits; the result is sixteen bytes, and printing
-- it gives the text back with its digits in lower case.
pub display-parse_id :
    (kind : String) (prefix input bytes : List ℕ)
    → parse_id input kind prefix ≡ ok bytes
    → (length bytes ≡ 16)
      × IsBytes bytes
      × (payload : List ℕ) × (input ≡ prefix ++ payload)
      × (display prefix bytes ≡ prefix ++ map to_lower payload)
unfolding parse_id display
display-parse_id kind prefix input bytes h =
    let record { value = payload; first = p; then = h1 } =
      ok_of-bind (ok_or (strip_prefix prefix input) _) _ h in
    let record { value = u; first = q; then = h2 } =
      ok_of-bind (reject_if (not (length payload == hex_length)) _) _ h1 in
    let (same, fits, long) = decode_hex_lem kind 16 0 payload bytes (ground arith) h2 in
    (
      long,
      fits,
      payload,
      strip_prefix_lem prefix input payload (ok_of-ok_or _ _ p),
      ap (λ t. prefix ++ t) same,
    )

spread : (a b m : ℕ) → (a + b * 256) * m ≡ a * m + b * (m * 256)
spread a b m = omega arith

shift : (v d p : ℕ) → (v * 256 + d) * p ≡ v * (p * 256) + d * p
shift v d p = omega arith

digit_split : (n m : ℕ) → n % (m * 256) ≡ n / m % 256 * m + n % m
digit_split n m =
    let regroup = ap (λ (t : ℕ). t * (m * 256)) (div-div-eq-div-mul n m 256) in
    omega (
      arith,
      regroup,
      spread (n / m % 256) (n / m / 256) m,
      mod-add-div' n (m * 256),
      mod-add-div' n m,
      ap (λ (t : ℕ). t * m) (mod-add-div' (n / m) 256),
    )

be_value-be_bytes : (k v n : ℕ) → be_value v (be_bytes k n) ≡ v * 256 ^ k + n % 256 ^ k
unfolding be_value be_bytes
be_value-be_bytes zero v n = omega arith
be_value-be_bytes (suc k) v n =
    rw (pow-suc, digit_split, be_value-be_bytes k (v * 256 + n / 256 ^ k % 256) n)
      (omega (arith, shift v (n / 256 ^ k % 256) (256 ^ k)))

-- The sixteen bytes of a u128, most significant first, spell it.
pub as_u128-from_u128 : (n : ℕ) → n < 2 ^ 128 → as_u128 (from_u128 n) ≡ n
unfolding as_u128 from_u128
as_u128-from_u128 n h = omega (arith, be_value-be_bytes 16 0 n)
