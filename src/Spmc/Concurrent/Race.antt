-- ===== src/Spmc/Concurrent/Race.antt =====
-- What happens when a consumer asks for more than is there.
use femtolog.Prelude.{
  ℕ, ◌+◌, ◌^◌, ◌≤◌, ◌<◌, List, [], ◌∷◌, ◌++◌, ◌≡◌, sym, arith, lt→ltb, append_assoc,
}
use femtolog.Word.{add_size}
use femtolog.Spsc.{distance}
use femtolog.Spmc.{claim, rewind}
use femtolog.Spmc.Concurrent.{
  Phase, ticketed, checked, denied, Call, System, Step, take_ticket, check, deny, take_back, Steps,
  here, then,
}

-- Consumers may ask for any size.
abbrev pub Any : System → ℕ → Type 0
Any s n = Unit

abbrev pub call_at : ℕ → ℕ → Phase → Call
call_at ticket n phase = record { ticket = ticket; data_size = n; phase = phase }

-- The state after a call that asked for `n` bytes has taken its ticket back, and one that asked for `k`
-- behind it has passed its test.
abbrev pub overtaken : System → ℕ → ℕ → System
overtaken s n k = record s {
  queue = rewind (claim (claim s.queue n) k) n;
  calls = s.calls ++ (call_at (add_size s.queue.head_idx n) k checked ∷ []);
}

-- Where fewer bytes than `n` stand between the head and the tail, and one consumer asks for `n`, another
-- that asks for `k` before the first has taken its ticket back passes its test, since the tail is behind
-- its ticket and their difference wraps around: it goes on to copy bytes that start behind the tail,
-- however few have been sent. When the first has taken its ticket back, the head is `k` bytes on, so
-- that later calls skip that many bytes.
pub overtake :
    (s : System) (n k : ℕ)
    → s.queue.head_idx < 2 ^ 64
    → s.queue.tail_idx < 2 ^ 64
    → distance s.queue.tail_idx s.queue.head_idx < n
    → 0 < k
    → n + k ≤ 2 ^ 63
    → Steps Any s (overtaken s n k)
      × (0 < distance (add_size s.queue.head_idx n) s.queue.tail_idx)
      × ((overtaken s n k).queue.head_idx ≡ add_size s.queue.head_idx k)
overtake s n k head_word tail_word short positive small = (
  then
      (then
        (then (then (then here (take_ticket n (omega arith) tt)) (take_ticket k positive tt))
          refused)
        passed)
      (take_back s.calls (waiting checked ∷ []) s.queue.head_idx n
        (append_assoc s.calls (over denied ∷ []) (waiting checked ∷ []))),
  omega arith,
  omega arith,
)
  where
    over : Phase → Call
    over phase = call_at s.queue.head_idx n phase

    waiting : Phase → Call
    waiting phase = call_at (add_size s.queue.head_idx n) k phase

    -- Both tickets are taken.
    both : List Call → System
    both calls = record s { queue = claim (claim s.queue n) k; calls = calls }

    refused :
        Step Any
          (both ((s.calls ++ (over ticketed ∷ [])) ++ (waiting ticketed ∷ [])))
          (both (s.calls ++ (over denied ∷ (waiting ticketed ∷ []))))
    refused =
        deny s.calls (waiting ticketed ∷ []) s.queue.head_idx n
          (append_assoc s.calls (over ticketed ∷ []) (waiting ticketed ∷ [])) (lt→ltb _ _ short)

    passed :
        Step Any
          (both (s.calls ++ (over denied ∷ (waiting ticketed ∷ []))))
          (both ((s.calls ++ (over denied ∷ [])) ++ (waiting checked ∷ [])))
    passed =
        check (s.calls ++ (over denied ∷ [])) [] (add_size s.queue.head_idx n) k
          (sym (append_assoc s.calls (over denied ∷ []) (waiting ticketed ∷ []))) (ground arith)
