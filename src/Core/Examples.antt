-- ===== src/Core/Examples.antt =====
-- The theorems on identifiers and batches at concrete inputs.
use local_search.Prelude.{ℕ, ◌≡◌, ◌↔◌, refl, List, [], ◌∷◌, ◌++◌, map, length, ok, arith, replicate}
use local_search.Core.Ids.{parse_id, display}
use local_search.Core.Ids.RoundTrip.{IsBytes, to_lower, parse_id-display, display-parse_id}
use local_search.Core.Models.{SequencedMutation, MutationBatch, IndexMutation, validate}
use local_search.Core.Models.Batches.{IsConsecutive, validate_batch_iff}

-- "volume ID" with the prefix "volume:"
abbrev volume : List ℕ
volume = b'v' ∷ b'o' ∷ b'l' ∷ b'u' ∷ b'm' ∷ b'e' ∷ b':' ∷ []

abbrev sixteen : List ℕ
sixteen = 0 ∷ 171 ∷ replicate 14 205

parse_id-display_example : parse_id (display volume sixteen) "volume ID" volume ≡ ok sixteen
parse_id-display_example = parse_id-display "volume ID" volume sixteen refl (omega arith)

display-parse_id_example :
    (length sixteen ≡ 16)
    × IsBytes sixteen
    × (payload : List ℕ) × (display volume sixteen ≡ volume ++ payload)
    × (display volume sixteen ≡ volume ++ map to_lower payload)
display-parse_id_example =
    display-parse_id "volume ID" volume (display volume sixteen) sixteen parse_id-display_example

abbrev deletion : ℕ → SequencedMutation
deletion n = record { sequence = n; mutation = IndexMutation.delete 9 n }

abbrev three : MutationBatch
three = record { mutations = deletion 41 ∷ deletion 42 ∷ deletion 43 ∷ [] }

validate_batch_iff_example : (validate three ≡ ok tt) ↔ IsConsecutive three.mutations
validate_batch_iff_example = validate_batch_iff three
