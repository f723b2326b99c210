-- ===== src/Wire/Frame/RoundTrip.antt =====
-- Which frames are written, and which are read (crates/agent-api/src/codec.rs).
use local_search.Prelude.{
  ℕ, zero, suc, ◌+◌, ◌*◌, ◌/◌, ◌%◌, ◌≤◌, ◌<◌, ◌≡◌, refl, ap, sym, ◌∙◌, inl, inr, none, some, List,
  [], ◌∷◌, ◌++◌, ◌&&◌, length, take, drop, length-append, length-take, subst, leb, if◌then◌else◌,
  ok, err, ok_or, ok_of-ok_or, u32_max, arith, Option-cases, take-append-drop,
}
use local_search.Core.Ids.RoundTrip.{IsBytes}
use local_search.Wire.Frame.{
  frame_too_large, invalid_json, Json, le_bytes, le_value, encode_frame, decode_frame,
}

length-le_bytes : (k n : ℕ) → length (le_bytes k n) ≡ k
unfolding le_bytes
length-le_bytes zero n = refl
length-le_bytes (suc k) n = ap suc (length-le_bytes k (n / 256))

le_value-le_bytes : (n : ℕ) → n < 4294967296 → le_value (le_bytes 4 n) ≡ n
unfolding le_value le_bytes
le_value-le_bytes n h = omega arith

le_bytes-le_value :
    (bytes : List ℕ) → IsBytes bytes → le_bytes (length bytes) (le_value bytes) ≡ bytes
unfolding le_value le_bytes
le_bytes-le_value [] h = refl
le_bytes-le_value (b ∷ bs) (lt, h) =
    let low : (b + 256 * le_value bs) % 256 ≡ b = omega arith in
    let high : (b + 256 * le_value bs) / 256 ≡ le_value bs = omega arith in
    rw (low, high, le_bytes-le_value bs h)

take-le_bytes : (n : ℕ) (ys : List ℕ) → take 4 (le_bytes 4 n ++ ys) ≡ le_bytes 4 n
unfolding le_bytes
take-le_bytes n ys = refl

drop-le_bytes : (n : ℕ) (ys : List ℕ) → drop 4 (le_bytes 4 n ++ ys) ≡ ys
unfolding le_bytes
drop-le_bytes n ys = refl

-- What `encode_frame` writes for a payload.
abbrev pub framed : List ℕ → List ℕ
framed payload = le_bytes 4 (length payload) ++ payload

take-IsBytes : (n : ℕ) (bytes : List ℕ) → IsBytes bytes → IsBytes (take n bytes)
take-IsBytes zero bytes h = tt
take-IsBytes (suc n) [] h = tt
take-IsBytes (suc n) (b ∷ bs) (lt, h) = (lt, take-IsBytes n bs h)

module _ {A : Type 0} (maximum : ℕ) (json : Json A) where
  -- A value is written as its framed payload exactly when the payload is within the maximum and the
  -- range of u32, and is refused as too large otherwise.
  pub encode_frame_lem :
      (v : A) (payload : List ℕ)
      → json.to_vec v ≡ some payload
      → encode_frame maximum json v ≡ (
          if leb (length payload) maximum && leb (length payload) u32_max
          then ok (framed payload)
          else err frame_too_large)
  unfolding encode_frame
  encode_frame_lem v payload e = ground arith

  decode-framed :
      (payload : List ℕ)
      → length payload ≤ maximum
      → length payload ≤ u32_max
      → decode_frame maximum json (framed payload) ≡ ok_or (json.from_slice payload) invalid_json
  unfolding decode_frame
  decode-framed payload h l =
      let size : ℕ = length payload in
      rw
        (
          take-le_bytes size payload,
          drop-le_bytes size payload,
          le_value-le_bytes size (omega arith),
        )
        (ground (arith, length-append (le_bytes 4 size) payload, length-le_bytes 4 size))

  no_payload :
      (v : A) {frame : List ℕ} → json.to_vec v ≡ none → encode_frame maximum json v ≡ ok frame → ⊥
  unfolding encode_frame
  no_payload v e h = ground arith

  -- Where JSON reads back what it wrote of a value, reading a frame that was written for the value
  -- gives the value.
  pub decode-encode :
      (v : A) (frame : List ℕ)
      → ((payload : List ℕ) → json.to_vec v ≡ some payload → json.from_slice payload ≡ some v)
      → encode_frame maximum json v ≡ ok frame
      → decode_frame maximum json frame ≡ ok v
  decode-encode v frame law h = elim (Option-cases (json.to_vec v)) [
    | inl e ↦ absurd (no_payload v e h)
    | inr (payload, e) ↦
        ground (arith, encode_frame_lem v payload e, decode-framed payload, law payload)
  ]

  -- A frame that is read is one whole frame: its four bytes spell the length of the rest, the rest is
  -- within the maximum, and the value is what JSON reads of the rest.
  pub decode_frame_sound :
      (frame : List ℕ) (v : A)
      → IsBytes frame
      → decode_frame maximum json frame ≡ ok v
      → (payload : List ℕ) × (frame ≡ framed payload)
        × (length payload ≤ maximum)
        × (json.from_slice payload ≡ some v)
  unfolding decode_frame
  decode_frame_sound frame v b h =
      let payload : List ℕ = drop 4 frame in
      let facts : (4 ≤ length frame)
          × (length payload ≡ le_value (take 4 frame))
          × (length payload ≤ maximum)
          × (ok_or (json.from_slice payload) invalid_json ≡ ok v) =
        ground arith in
      let head : List ℕ = take 4 frame in
      let four : length head ≡ 4 = omega (arith, length-take 4 frame, facts) in
      let whole =
        subst (λ k. le_bytes k (le_value head) ≡ head) four
          (le_bytes-le_value head (take-IsBytes 4 frame b)) in
      let same =
        ap (λ n. le_bytes 4 n ++ payload) facts.1
        ∙ ap (λ t. t ++ payload) whole
        ∙ take-append-drop 4 frame in
      (payload, sym same, facts.2, ok_of-ok_or _ _ facts.3)

  -- A declared length beyond the maximum is refused whatever follows it, before JSON is asked.
  pub decode_frame_hostile :
      (frame : List ℕ)
      → 4 ≤ length frame
      → maximum < le_value (take 4 frame)
      → decode_frame maximum json frame ≡ err frame_too_large
  unfolding decode_frame
  decode_frame_hostile frame h m = ground arith
