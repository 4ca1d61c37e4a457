-- ===== src/Spmc/Concurrent/Tiles.antt =====
-- The calls under way lie one behind the other on the bytes from the commit index on.
use femtolog.Prelude.{
  take-front, drop-front, ℕ, ◌+◌, ◌%◌, ◌^◌, ◌≤◌, ◌<◌, List, [], ◌∷◌, ◌++◌, ◌≡◌, sym, ap, ◌∙◌, subst,
  length, take, drop, arith, length-append, length-drop, drop-drop,
}
use femtolog.Word.{add_size}
use femtolog.Spmc.Concurrent.{Phase, ticketed, checked, copied, denied, Call}

-- What a call has, when the bytes `part` are its own.
abbrev pub IsFine : Phase → List ℕ → Type 0
IsFine ticketed part = Unit
IsFine checked part = Unit
IsFine (copied out) part = out ≡ part
IsFine denied part = ⊥

-- From index `c` on, where `bytes` begin, the calls take their sizes in turn, and `h` is behind them.
abbrev pub Tiles : ℕ → List Call → List ℕ → ℕ → Type 0
Tiles c [] bytes h = c ≡ h
Tiles c (call ∷ calls) bytes h =
    (call.ticket ≡ c)
    × (0 < call.data_size)
    × (call.data_size ≤ length bytes)
    × IsFine call.phase (take call.data_size bytes)
    × Tiles (add_size c call.data_size) calls (drop call.data_size bytes) h

abbrev pub total : List Call → ℕ
total [] = 0
total (call ∷ calls) = call.data_size + total calls

-- A step changes the phase of one call.
abbrev pub with_phase : Call → Phase → Call
with_phase call p = record call { phase = p }

-- More bytes at the end change nothing.
pub Tiles-append :
    (c : ℕ) (calls : List Call) (bytes src : List ℕ) (h : ℕ)
    → Tiles c calls bytes h
    → Tiles c calls (bytes ++ src) h
Tiles-append c [] bytes src h t = t
Tiles-append c (call ∷ calls) bytes src h (at, pos, le, fine, rest) =
    let n = call.data_size in
    (
      at,
      pos,
      omega (arith, length-append bytes src),
      subst (IsFine call.phase) (sym (take-front n bytes src le)) fine,
      subst (λ b. Tiles (add_size c n) calls b h) (sym (drop-front n bytes src le))
          (Tiles-append (add_size c n) calls (drop n bytes) src h rest),
    )

-- The head is behind all of them.
pub Tiles-head :
    (c : ℕ) (calls : List Call) (bytes : List ℕ) (h : ℕ)
    → c < 2 ^ 64
    → Tiles c calls bytes h
    → (h ≡ (c + total calls) % 2 ^ 64) × (total calls ≤ length bytes)
Tiles-head c [] bytes h word t = (sym t ∙ omega arith, omega arith)
Tiles-head c (call ∷ calls) bytes h word (at, pos, le, fine, rest) =
    let n = call.data_size in
    let (e, within) = Tiles-head (add_size c n) calls (drop n bytes) h (omega arith) rest in
    (omega (arith, e), omega (arith, within, length-drop n bytes))

-- A new ticket goes behind the others.
pub Tiles-ticket :
    (c : ℕ) (calls : List Call) (bytes : List ℕ) (h n : ℕ)
    → Tiles c calls bytes h
    → 0 < n
    → total calls + n ≤ length bytes
    → Tiles c
        (calls ++ (record { ticket = h; data_size = n; phase = ticketed } ∷ []))
        bytes
        (add_size h n)
Tiles-ticket c [] bytes h n t pos room =
    (sym t, pos, omega arith, tt, ap (λ (k : ℕ). add_size k n) t)
Tiles-ticket c (call ∷ calls) bytes h n (at, pos', le, fine, rest) pos room = (
  at,
  pos',
  le,
  fine,
  Tiles-ticket (add_size c call.data_size) calls (drop call.data_size bytes) h n rest pos
      (omega (arith, length-drop call.data_size bytes)),
)

-- A call in the list: the bytes that are its own, and what another phase of it must have.
pub record Place (c : ℕ) (front : List Call) (call : Call) (back : List Call) (bytes : List ℕ)
    (h : ℕ) : Type 0 where
  pub at : call.ticket ≡ (c + total front) % 2 ^ 64
  pub positive : 0 < call.data_size
  pub inside : total front + call.data_size ≤ length bytes
  pub fine : IsFine call.phase (take call.data_size (drop (total front) bytes))
  pub becomes :
      (p : Phase)
      → IsFine p (take call.data_size (drop (total front) bytes))
      → Tiles c (front ++ (with_phase call p ∷ back)) bytes h

pub Tiles-Place :
    (c : ℕ) (front : List Call) (call : Call) (back : List Call) (bytes : List ℕ) (h : ℕ)
    → c < 2 ^ 64
    → Tiles c (front ++ (call ∷ back)) bytes h
    → Place c front call back bytes h
Tiles-Place c [] call back bytes h word (at, pos, le, fine, rest) = record {
  at = at ∙ omega arith;
  positive = pos;
  inside = omega arith;
  fine = fine;
  becomes = λ p ok. (at, pos, le, ok, rest);
}
Tiles-Place c (first ∷ front) call back bytes h word (at, pos, le, fine, rest) =
    let n = first.data_size in
    let place = Tiles-Place (add_size c n) front call back (drop n bytes) h (omega arith) rest in
    let own = ap (take call.data_size) (drop-drop n (total front) bytes) in
    record {
      at = omega (arith, place.at);
      positive = place.positive;
      inside = omega (arith, place.inside, length-drop n bytes);
      fine = subst (IsFine call.phase) own place.fine;
      becomes = λ p ok. (at, pos, le, fine, place.becomes p (subst (IsFine p) (sym own) ok));
    }
