-- ===== src/BrokerService/Delivery.antt =====
-- What the pages of a scan deliver (`read_scan_page` of crates/fs-service/src/lib.rs).
use local_search.Prelude.{
  ℕ, zero, suc, ◌+◌, ◌≤◌, ◌<◌, ◌≡◌, refl, ap, Option, none, some, List, [], ◌∷◌, ◌++◌, length,
  arith,
}
use local_search.Core.Models.{FilesystemEvent}
use local_search.Platform.{PlatformResult, ScanSummary}
use local_search.BrokerService.Scans.{
  Received, event, terminal, empty, ScanState, stopped_without_terminal, pull, take_page, PageStep,
  more, over, end_page, read_page,
}

-- the events that stand before the first terminal
abbrev events_before : List Received → List FilesystemEvent
events_before [] = []
events_before (event e ∷ rs) = e ∷ events_before rs
events_before (terminal result ∷ rs) = []
events_before (empty ∷ rs) = events_before rs

abbrev first_terminal : List Received → PlatformResult ScanSummary
first_terminal [] = stopped_without_terminal
first_terminal (event e ∷ rs) = first_terminal rs
first_terminal (terminal result ∷ rs) = result
first_terminal (empty ∷ rs) = first_terminal rs

-- The events that a scan has still to deliver, and how it ends.
abbrev events_of : Option (PlatformResult ScanSummary) → List Received → List FilesystemEvent
events_of none rs = events_before rs
events_of (some result) rs = []

abbrev outcome_of : Option (PlatformResult ScanSummary) → List Received → PlatformResult ScanSummary
outcome_of none rs = first_terminal rs
outcome_of (some result) rs = result

abbrev pub remaining : ScanState → List FilesystemEvent
remaining s = events_of s.pending_terminal s.receiver

abbrev pub outcome : ScanState → PlatformResult ScanSummary
outcome s = outcome_of s.pending_terminal s.receiver

-- The reads that a scan takes at most: one for each message, and one that finds its end.
abbrev reads_of : Option (PlatformResult ScanSummary) → List Received → ℕ
reads_of none rs = length rs + 1
reads_of (some result) rs = 1

abbrev pub reads : ScanState → ℕ
reads s = reads_of s.pending_terminal s.receiver

reads_positive : (t : Option (PlatformResult ScanSummary)) (rs : List Received) → 0 < reads_of t rs
reads_positive none rs = omega arith
reads_positive (some result) rs = omega arith

-- What a read of at most `maximum` events may make of a scan.
abbrev pub Delivers : ℕ → ScanState → PageStep → Type 0
Delivers maximum s (more s' es) =
    (remaining s ≡ es ++ remaining s')
    × (outcome s ≡ outcome s')
    × (length es ≤ maximum)
    × (reads s' < reads s)
Delivers maximum s (over result) = (remaining s ≡ []) × (outcome s ≡ result)

pull-events :
    (room : ℕ) (rs : List Received)
    → let p = pull room rs in events_before rs ≡ p.events ++ events_of p.terminal p.receiver
unfolding pull
pull-events zero rs = refl
pull-events (suc room) [] = refl
pull-events (suc room) (empty ∷ rs) = refl
pull-events (suc room) (terminal result ∷ rs) = refl
pull-events (suc room) (event e ∷ rs) = ap (λ es. e ∷ es) (pull-events room rs)

pull-outcome :
    (room : ℕ) (rs : List Received)
    → let p = pull room rs in first_terminal rs ≡ outcome_of p.terminal p.receiver
unfolding pull
pull-outcome zero rs = refl
pull-outcome (suc room) [] = refl
pull-outcome (suc room) (empty ∷ rs) = refl
pull-outcome (suc room) (terminal result ∷ rs) = refl
pull-outcome (suc room) (event e ∷ rs) = pull-outcome room rs

pull-length :
    (room : ℕ) (rs : List Received)
    → let p = pull room rs in
      (length p.events ≤ room) × (length p.receiver + length p.events ≤ length rs)
unfolding pull
pull-length zero rs = (omega arith, omega arith)
pull-length (suc room) [] = (omega arith, omega arith)
pull-length (suc room) (empty ∷ rs) = (omega arith, omega arith)
pull-length (suc room) (terminal result ∷ rs) = (omega arith, omega arith)
pull-length (suc room) (event e ∷ rs) =
    (omega (arith, (pull-length room rs).0), omega (arith, (pull-length room rs).1))

-- A loop with room takes a message or finds the end.
pull-progress :
    (room : ℕ) (rs : List Received)
    → let p = pull (suc room) rs in p.terminal ≡ none → length p.receiver < length rs
unfolding pull
pull-progress room [] h = cc
pull-progress room (empty ∷ rs) h = omega arith
pull-progress room (terminal result ∷ rs) h = cc
pull-progress room (event e ∷ rs) h = omega (arith, (pull-length room rs).1)

end_page-Delivers :
    (maximum : ℕ) (s : ScanState) (es : List FilesystemEvent)
    (t : Option (PlatformResult ScanSummary)) (rs : List Received)
    → remaining s ≡ es ++ events_of t rs
    → outcome s ≡ outcome_of t rs
    → length es ≤ maximum
    → (t ≡ none → length rs + 1 < reads s)
    → length es < reads s
    → Delivers maximum s (end_page es t rs)
unfolding end_page
end_page-Delivers maximum s es none rs e o l p q = (e, o, l, p refl)
end_page-Delivers maximum s [] (some result) rs e o l p q = (e, o)
end_page-Delivers maximum s (x ∷ es) (some result) rs e o l p q = (e, o, l, omega arith)

take_page-Delivers :
    (room : ℕ) (t : Option (PlatformResult ScanSummary)) (rs : List Received)
    → let p = take_page t (suc room) rs in
      Delivers
        (suc room)
        (record { receiver = rs; pending_terminal = t })
        (end_page p.events p.terminal p.receiver)
unfolding take_page end_page
take_page-Delivers room none rs =
    let (bounded, within) = pull-length (suc room) rs in
    end_page-Delivers (suc room) (record { receiver = rs; pending_terminal = none }) _ _ _
      (pull-events (suc room) rs) (pull-outcome (suc room) rs) bounded
      (λ t. omega (arith, pull-progress room rs t)) (omega (arith, within))
take_page-Delivers room (some result) rs = (refl, refl)

-- A read with room either goes on, with at most `maximum` events that are exactly the next ones and
-- with the same outcome and fewer reads to come, or it is over: then no event is left and its
-- outcome is the scan's.
pub read_page-Delivers :
    (maximum : ℕ) (s : ScanState) → 0 < maximum → Delivers maximum s (read_page maximum s)
unfolding read_page
read_page-Delivers zero s h = ground (arith, h)
read_page-Delivers (suc room) s h = take_page-Delivers room s.pending_terminal s.receiver

-- A consumer that reads pages until the scan is over, at most `fuel` of them.
abbrev pub Drained : Type 0
Drained = List FilesystemEvent × PlatformResult ScanSummary

abbrev gather : List FilesystemEvent → Option Drained → Option Drained
gather es none = none
gather es (some (later, result)) = some (es ++ later, result)

abbrev follow : PageStep → (ScanState → Option Drained) → Option Drained
follow (more s es) next = gather es (next s)
follow (over result) next = some ([], result)

abbrev pub drain : ℕ → ℕ → ScanState → Option Drained
drain zero maximum s = none
drain (suc fuel) maximum s = follow (read_page maximum s) (drain fuel maximum)

follow-Delivers :
    (fuel maximum : ℕ) (s : ScanState) (p : PageStep)
    → ((t : ScanState) → reads t ≤ fuel → drain fuel maximum t ≡ some (remaining t, outcome t))
    → reads s ≤ suc fuel
    → Delivers maximum s p
    → follow p (drain fuel maximum) ≡ some (remaining s, outcome s)
follow-Delivers fuel maximum s (more s' es) next h (e, o, l, r) =
    let later = ap (gather es) (next s' (omega (arith, r, h))) in cc
follow-Delivers fuel maximum s (over result) next h (e, o) = cc

-- Reading pages with room until the scan is over delivers every event that its queue holds before
-- the terminal, once and in order, and then its outcome. As many reads as `reads` counts are enough.
pub drain_lem :
    (fuel maximum : ℕ) (s : ScanState)
    → 0 < maximum
    → reads s ≤ fuel
    → drain fuel maximum s ≡ some (remaining s, outcome s)
drain_lem zero maximum s m h = ground (arith, reads_positive s.pending_terminal s.receiver, h)
drain_lem (suc fuel) maximum s m h =
    follow-Delivers fuel maximum s (read_page maximum s) (λ t k. drain_lem fuel maximum t m k) h
      (read_page-Delivers maximum s m)
