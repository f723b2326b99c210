-- ===== src/BrokerService/Replay.antt =====
-- The bounded replay window (`ReplayWindow` of crates/fs-service/src/lib.rs). The deque is a list
-- from its front; the hash set is a list of which only membership is read.
use local_search.Prelude.{
  ℕ, Bool, true, false, ◌&&◌, ◌||◌, List, [], ◌∷◌, ◌++◌, length, ltb, ◌==◌, if◌then◌else◌,
}
use local_search.Core.Models.{Text}

-- `==` of two texts
unfoldable pub text_eq : Text → Text → Bool
text_eq [] [] = true
text_eq [] (d ∷ ds) = false
text_eq (c ∷ cs) [] = false
text_eq (c ∷ cs) (d ∷ ds) = c == d && text_eq cs ds

unfoldable pub contains : Text → List Text → Bool
contains id [] = false
contains id (t ∷ ts) = text_eq id t || contains id ts

-- HashSet::remove
unfoldable pub remove : Text → List Text → List Text
remove id [] = []
remove id (t ∷ ts) = let rest = remove id ts in if text_eq id t then rest else t ∷ rest

pub record ReplayWindow : Type 0 where
  pub capacity : ℕ
  pub order : List Text
  pub present : List Text

unfoldable pub new : ℕ → ReplayWindow
new capacity = record { capacity = capacity; order = []; present = [] }

-- The `if … && let Some(expired) = self.order.pop_front()` of `admit`.
unfoldable pub expire : ReplayWindow → List Text → ReplayWindow
expire w [] = w
expire w (expired ∷ order) =
    if ltb w.capacity (length (expired ∷ order))
    then record w { order = order; present = remove expired w.present }
    else w

-- The flag is false for `Err(())`.
unfoldable pub admit : Text → ReplayWindow → ReplayWindow × Bool
admit request_id w =
    if contains request_id w.present
    then (w, false)
    else (let order = w.order ++ request_id ∷ [] in
        (expire (record w { order = order; present = request_id ∷ w.present }) order, true))
