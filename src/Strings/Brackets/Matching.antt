-- ===== src/Strings/Brackets/Matching.antt =====
-- What `remove_bracket` keeps of a text whose brackets match.
use femtolog.Prelude.{
  ℕ, ◌+◌, ◌-◌, ◌*◌, ◌/◌, ◌≤◌, ◌<◌, List, [], ◌∷◌, ◌++◌, some, ◌>>=◌, Bool, true, false, ◌≡◌, refl,
  sym, ap, ◌∙◌, ◌==◌, ltb, leb, if◌then◌else◌, Bool-cases, inl, inr, length-append, length, get_or,
  set, min, replicate, arith, append_assoc, append-nil, lt→ltb, ltb→lt, ◌≢◌, length-set,
  length-replicate, get_or-set_self, get_or-set_ne,
}
use femtolog.Strings.Brackets.{
  opening, closing, plain, bracket_of, State, step, run, remove_bracket,
}

-- Texts whose brackets match, with what stands outside all brackets.
pub data Balanced : List ℕ → List ℕ → Type 0 where
  done : Balanced [] []
  keep :
      (c : ℕ) {s kept : List ℕ}
      → bracket_of c ≡ plain
      → Balanced s kept
      → Balanced (c ∷ s) (c ∷ kept)
  group :
      (o c t : ℕ) {inside inner s kept : List ℕ}
      → bracket_of o ≡ opening t
      → bracket_of c ≡ closing t
      → Balanced inside inner
      → Balanced s kept
      → Balanced (o ∷ (inside ++ (c ∷ s))) kept

-- A state `st'` that has the stack of `st` below its depth.
record Below (st st' : State) : Type 0 where
  pub size : length st'.stack ≡ length st.stack
  pub kept : (i : ℕ) → i < st.depth → get_or st'.stack i 0 ≡ get_or st.stack i 0

-- What the loop leaves of a state after a balanced text.
abbrev left : State → List ℕ → List ℕ → State
left st stack kept = record st {
  stack = stack;
  output = st.output ++ (if st.depth == 0 then kept else []);
}

nothing : (b : Bool) → ◌≡◌ {A = List ℕ} (if b then [] else []) []
nothing true = refl
nothing false = refl

appended :
    (b : Bool) (out : List ℕ) (c : ℕ) (kept : List ℕ)
    → (out ++ (if b then c ∷ [] else [])) ++ (if b then kept else [])
      ≡ out ++ (if b then c ∷ kept else [])
appended true out c kept = append_assoc out (c ∷ []) kept
appended false out c kept = append-nil (out ++ [])

-- Inside a bracket nothing is kept.
hidden : (d : ℕ) (out inner : List ℕ) → out ++ (if d + 1 == 0 then inner else []) ≡ out
hidden d out inner = rw deeper (append-nil out)
  where
    deeper : (d + 1 == 0) ≡ false
    deeper = ground arith

module _ (max_nest_size room : ℕ) where
  -- The stack is long enough for what may still be opened in `n` bytes.
  record Fits (n : ℕ) (st : State) : Type 0 where
    pub stack : length st.stack ≡ min (room / 2) max_nest_size
    pub bytes : 2 * st.depth + n ≤ room

  step_open :
      (o t n : ℕ) (st : State)
      → Fits (2 + n) st
      → (stack : List ℕ) × (step max_nest_size o (opening t) st
          ≡ some (record st { stack = stack; depth = st.depth + 1 }))
        × Below st (record st { stack = stack })
        × (st.depth < max_nest_size → get_or stack st.depth 0 ≡ t)
  unfolding step
  step_open o t n st fits = elim (Bool-cases (ltb st.depth max_nest_size)) [
    | inl shallow ↦
        let inside = free shallow in
        (
          set st.stack st.depth t,
          rw (shallow, inside) refl,
          record {
            size = length-set st.stack st.depth t;
            kept = λ i less. get_or-set_ne st.stack st.depth i t 0 (apart i less);
          },
          λ less. get_or-set_self st.stack st.depth t 0 (ltb→lt _ _ inside),
        )
    | inr deep ↦ (
      st.stack,
      rw deep refl,
      record { size = refl; kept = λ i less. refl },
      λ less. absurd (ground (arith, deep, less)),
    )
  ]
    where
      free : ltb st.depth max_nest_size ≡ true → ltb st.depth (length st.stack) ≡ true
      free shallow = lt→ltb _ _ (omega (arith, fits.stack, fits.bytes, ltb→lt _ _ shallow))

      apart : (i : ℕ) → i < st.depth → st.depth ≢ i
      apart i less = omega (arith, less)

  step_close :
      (c t d : ℕ) (st : State)
      → st.depth ≡ d + 1
      → (d < max_nest_size → get_or st.stack d 0 ≡ t)
      → step max_nest_size c (closing t) st ≡ some (record st { depth = d })
  unfolding step
  step_close c t d st e matches = elim (Bool-cases (ltb d max_nest_size)) [
    | inl shallow ↦ rw (opened, before, within shallow, found shallow) refl
    | inr deep ↦ rw (opened, before, not_shallow deep, past deep) refl
  ]
    where
      opened : ltb 0 st.depth ≡ true
      opened = ground (arith, e)

      before : st.depth - 1 ≡ d
      before = omega (arith, e)

      within : ltb d max_nest_size ≡ true → leb st.depth max_nest_size ≡ true
      within shallow = ground (arith, e, shallow)

      found : ltb d max_nest_size ≡ true → (get_or st.stack d 0 == t) ≡ true
      found shallow = ground (arith, matches (ltb→lt _ _ shallow))

      not_shallow : ltb d max_nest_size ≡ false → leb st.depth max_nest_size ≡ false
      not_shallow deep = ground (arith, e, deep)

      past : ltb d max_nest_size ≡ false → ltb max_nest_size st.depth ≡ true
      past deep = ground (arith, e, deep)

  step-plain :
      (c : ℕ) (st : State)
      → step max_nest_size c plain st
        ≡ some (record st { output = st.output ++ (if st.depth == 0 then c ∷ [] else []) })
  unfolding step
  step-plain c st = elim (Bool-cases (st.depth == 0)) [
    | inl outside ↦ rw outside refl
    | inr within ↦
        rw within (ap (λ out. some (record st { output = out })) (sym (append-nil st.output)))
  ]

  run-Balanced :
      {s kept : List ℕ}
      → Balanced s kept
      → (rest : List ℕ) (st : State) → Fits (length s) st
      → (stack : List ℕ) × (run max_nest_size (s ++ rest) st
          ≡ run max_nest_size rest (left st stack kept))
        × Below st (record st { stack = stack })
  unfolding run
  run-Balanced done rest st fits = (
    st.stack,
    ap (λ out. run max_nest_size rest (record st { output = out }))
        (sym (append-nil st.output) ∙ ap (λ zs. st.output ++ zs) (sym (nothing (st.depth == 0)))),
    record { size = refl; kept = λ i less. refl },
  )
  run-Balanced (keep c {s} {kept} e b) rest st fits =
      let st' = record st { output = st.output ++ (if st.depth == 0 then c ∷ [] else []) } in
      let (stack, ran, below) =
        run-Balanced b rest st'
          (record { stack = fits.stack; bytes = omega (arith, fits.bytes) }) in
      (
        stack,
        ap (λ kind. step max_nest_size c kind st >>= λ st''. run max_nest_size (s ++ rest) st'') e
            ∙ ap (λ next. next >>= λ st''. run max_nest_size (s ++ rest) st'') (step-plain c st)
            ∙ ran
            ∙ ap (λ out. run max_nest_size rest (record st { stack = stack; output = out }))
                (appended (st.depth == 0) st.output c kept),
        record { size = below.size; kept = below.kept },
      )
  run-Balanced (group o c t {inside} {inner} {s} {kept} eo ec nested b) rest st fits =
      let (stack1, opens, below1, top) = step_open o t (length inside + length s) st (record {
        stack = fits.stack;
        bytes = omega (arith, fits.bytes, length-append inside (c ∷ s));
      }) in
      let st1 = record st { stack = stack1; depth = st.depth + 1 } in
      let (stack2, ran2, below2) = run-Balanced nested (c ∷ (s ++ rest)) st1 (record {
        stack = below1.size ∙ fits.stack;
        bytes = omega (arith, fits.bytes, length-append inside (c ∷ s));
      }) in
      let st2 = record st1 { stack = stack2 } in
      let closes =
        step_close c t st.depth st2 refl (λ less. below2.kept st.depth (omega arith) ∙ top less) in
      let st3 = record st { stack = stack2 } in
      let (stack3, ran3, below3) = run-Balanced b rest st3 (record {
        stack = below2.size ∙ below1.size ∙ fits.stack;
        bytes = omega (arith, fits.bytes, length-append inside (c ∷ s));
      }) in
      (
        stack3,
        ap
              (λ kind. step max_nest_size o kind st >>= λ st'.
                run max_nest_size ((inside ++ (c ∷ s)) ++ rest) st')
              eo
            ∙ ap (λ next. next >>= λ st'. run max_nest_size ((inside ++ (c ∷ s)) ++ rest) st') opens
            ∙ ap (λ bytes. run max_nest_size bytes st1) (append_assoc inside (c ∷ s) rest)
            ∙ ran2
            ∙ ap (λ out. run max_nest_size (c ∷ (s ++ rest)) (record st2 { output = out }))
                (hidden st.depth st.output inner)
            ∙ ap
                (λ kind. step max_nest_size c kind st2 >>= λ st'. run max_nest_size (s ++ rest) st')
                ec
            ∙ ap (λ next. next >>= λ st'. run max_nest_size (s ++ rest) st') closes
            ∙ ran3,
        record {
          size = below3.size ∙ below2.size ∙ below1.size;
          kept = λ i less. below3.kept i less ∙ below2.kept i (omega arith) ∙ below1.kept i less;
        },
      )

-- A text that is not empty.
loop_lem :
    {s kept : List ℕ} (max_nest_size : ℕ)
    → Balanced s kept
    → (length s == 0) ≡ false
    → remove_bracket s max_nest_size ≡ some kept
unfolding remove_bracket run
loop_lem {s} {kept} max_nest_size b some_bytes =
    let start : State = record {
      stack = replicate (min (length s / 2) max_nest_size) 0;
      depth = 0;
      output = [];
    } in
    let (stack, ran, below) = run-Balanced max_nest_size (length s) b [] start (record {
      stack = length-replicate (min (length s / 2) max_nest_size) 0;
      bytes = omega arith;
    }) in
    ap (λ empty. if empty then some [] else (run max_nest_size s start >>= λ st. some st.output))
      some_bytes
    ∙ ap (λ bytes. run max_nest_size bytes start >>= λ st. some st.output) (sym (append-nil s))
    ∙ ap (λ result. result >>= λ st. some st.output) ran

-- Of a text whose brackets match, `remove_bracket` returns exactly what stands outside all brackets,
-- whatever the limit of nesting, and never leaves its stack.
pub remove_bracket_lem :
    {s kept : List ℕ} (max_nest_size : ℕ)
    → Balanced s kept
    → remove_bracket s max_nest_size ≡ some kept
unfolding remove_bracket
remove_bracket_lem max_nest_size done = refl
remove_bracket_lem max_nest_size (keep c e b) = loop_lem max_nest_size (keep c e b) (ground arith)
remove_bracket_lem max_nest_size (group o c t eo ec inside b) =
    loop_lem max_nest_size (group o c t eo ec inside b) (ground arith)
