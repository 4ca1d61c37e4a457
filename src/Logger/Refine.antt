-- ===== src/Logger/Refine.antt =====
-- `InternalLogger::log` does what the view of the logger says.
use femtolog.Prelude.{
  ℕ, ◌<◌, ◌^◌, List, Option, some, ◌>>=◌, false, ◌≡◌, refl, sym, ap, ap₂, ◌∙◌, subst, length, inl,
  inr, Bool-cases, leb, ◌==◌, if◌then◌else◌, arith, ◌&&◌, ◌||◌,
}
use femtolog.Level.{LogLevel, above}
use femtolog.Worker.{Environment, literal_id, max_payload_size}
use femtolog.Worker.Lifecycle
use femtolog.Logger.{
  InternalLogger, Message, literal, serialized, Outcome, returned, terminated, is_fatal, finish,
  drop_entry, create_and_enqueue, log_literal, log_serialized, log_message, log,
}
use femtolog.Logger.View.{View, Stands, submit, accept, log_view, drop_entry-Stands, submit_keeps}
use femtolog.Logger.Log.{submit_lem}

-- Format identifiers are of type `uint16_t`.
abbrev pub IsWord : Message → Type 0
IsWord (literal message) = Unit
IsWord (serialized format_id args) = format_id < 2 ^ 16

-- A call returns, with a logger that stands for the view `v`.
abbrev pub Returns : ℕ → Option Outcome → View → Type 0
Returns cap result v = (l : InternalLogger) × (result ≡ some (returned l)) × Stands cap l v

-- The guards of `log`, read off the view.
pub log_settled :
    (env : Environment) (fuel : ℕ) {cap : ℕ} {l : InternalLogger} {v : View}
    → Stands cap l v
    → (lvl : LogLevel) (m : Message)
    → log env fuel l lvl m ≡ (
        if above lvl v.limit
        then some (returned l)
        else (if Lifecycle.is_running v.worker.status
            then log_message env fuel l lvl m
            else some (returned l)))
unfolding log
log_settled env fuel {l = l} s lvl m =
    ap₂
      (λ limit worker.
        if above lvl limit
        then some (returned l)
        else (if Lifecycle.is_running worker.status
            then log_message env fuel l lvl m
            else some (returned l)))
      s.limit s.worker

module _ (env : Environment) (fuel : ℕ) {cap : ℕ} {l : InternalLogger} {v : View}
    (s : Stands cap l v) (lvl : LogLevel)
    (goes_on : (is_fatal lvl && v.terminate_on_fatal) ≡ false) where
  finish_returns :
      (l' : InternalLogger)
      → l'.terminate_on_fatal ≡ v.terminate_on_fatal
      → finish env fuel lvl l' ≡ some (returned l')
  unfolding finish
  finish_returns l' same =
      ap
        (λ b.
          if is_fatal lvl && b
          then (Lifecycle.stop env fuel l'.worker l'.queue >>= λ (w, q).
              some (terminated (record l' { worker = w; queue = q })))
          else some (returned l'))
        same
      ∙ rw goes_on refl

  submit-Returns :
      (format_id : ℕ) (payload : List ℕ)
      → length payload < max_payload_size
      → format_id < 2 ^ 16
      → Returns cap
          (create_and_enqueue env fuel l lvl format_id payload)
          (submit cap lvl format_id payload v)
  submit-Returns format_id payload short format =
      let (l', e, s') = submit_lem env fuel s lvl format_id payload short format in
      (l', e ∙ finish_returns l' (s'.fatal ∙ (submit_keeps cap lvl format_id payload v).0), s')

  log_literal-Returns :
      (message : List ℕ)
      → Returns cap (log_literal env fuel l lvl message) (accept cap lvl (literal message) v)
  unfolding log_literal
  log_literal-Returns message = elim (Bool-cases (leb max_payload_size (length message))) [
    | inl long ↦ rw long (drop_entry l, refl, drop_entry-Stands s)
    | inr short ↦ rw short (submit-Returns literal_id message (ground arith) (omega arith))
  ]

  log_serialized-Returns :
      (format_id : ℕ) (args : List ℕ)
      → format_id < 2 ^ 16
      → Returns cap
          (log_serialized env fuel l lvl format_id args)
          (accept cap lvl (serialized format_id args) v)
  unfolding log_serialized
  log_serialized-Returns format_id args format =
      elim (Bool-cases (leb max_payload_size (length args) || length args == 0)) [
        | inl bad ↦ rw bad (drop_entry l, refl, drop_entry-Stands s)
        | inr short ↦ rw short (submit-Returns format_id args (ground arith) format)
      ]

  log_message-Returns :
      (m : Message) → IsWord m → Returns cap (log_message env fuel l lvl m) (accept cap lvl m v)
  unfolding log_message
  log_message-Returns (literal message) w = log_literal-Returns message
  log_message-Returns (serialized format_id args) w = log_serialized-Returns format_id args w

  -- A call of `log` on a logger that stands for the view `v`, with a format identifier of 16 bits
  -- and not a fatal one that is to end the process, returns and does what the view says: a level
  -- above the limit, or a worker that does not run, leaves all as it is; a message that is too
  -- long, or serialized arguments of no bytes, are dropped and counted; any other entry joins the
  -- queue in one piece and is counted, or, if the free space is too small, is dropped and
  -- counted.
  pub log_refines :
      (m : Message) → IsWord m → Returns cap (log env fuel l lvl m) (log_view cap lvl m v)
  unfolding log_view
  log_refines m w =
      subst (λ result. Returns cap result (log_view cap lvl m v))
        (sym (log_settled env fuel s lvl m))
        (elim (Bool-cases (above lvl v.limit)) [
          | inl filtered ↦ rw filtered (l, refl, s)
          | inr passes ↦ rw passes (elim (Bool-cases (Lifecycle.is_running v.worker.status)) [
            | inl runs ↦ rw runs (log_message-Returns m w)
            | inr rests ↦ rw rests (l, refl, s)
          ])
        ])
