-- ===== src/Logger/View.antt =====
-- What the frontend promises: `InternalLogger::log` against a sequence of entries and two counters.
use femtolog.Prelude.{
  ℕ, ◌+◌, ◌-◌, ◌<◌, ◌^◌, List, [], ◌∷◌, ◌++◌, Bool, ◌≡◌, refl, sym, ap, ◌∙◌, length, ltb, leb, ◌==◌,
  if◌then◌else◌, arith, ◌||◌, append_assoc,
}
use femtolog.Word.{u64}
use femtolog.Spsc.Invariant.{Represents}
use femtolog.Level.{LogLevel, above}
use femtolog.Entry.{entry_size}
use femtolog.Worker.{Worker, literal_id, max_payload_size}
use femtolog.Worker.Lifecycle
use femtolog.Worker.Processing.{Frame, IsFrame, AreFrames, frame_bytes, frames_bytes}
use femtolog.Logger.{InternalLogger, Message, literal, serialized, drop_entry}
use femtolog.Logger.Enqueue.{frame_of, padding_of, buffer_size}

-- The entries that wait in the queue, the two counters, and what the frontend never changes in `log`.
pub record View : Type 0 where
  pub frames : List Frame
  pub enqueued : ℕ
  pub dropped : ℕ
  pub limit : LogLevel
  pub thread_id : ℕ
  pub padding : List ℕ
  pub worker : Worker
  pub terminate_on_fatal : Bool

abbrev pub drop_one : View → View
drop_one v = record v { dropped = v.dropped + 1 }

-- An entry that fits the free space joins the queue; any other is dropped.
abbrev pub submit : ℕ → LogLevel → ℕ → List ℕ → View → View
submit cap lvl format_id payload v =
    let f = frame_of v.padding v.thread_id lvl format_id payload in
    if ltb (cap - length (frames_bytes v.frames)) (entry_size + length payload)
    then drop_one v
    else record v { frames = v.frames ++ (f ∷ []); enqueued = v.enqueued + 1 }

abbrev pub accept : ℕ → LogLevel → Message → View → View
accept cap lvl (literal message) v =
    if leb max_payload_size (length message)
    then drop_one v
    else submit cap lvl literal_id message v
accept cap lvl (serialized format_id args) v =
    if leb max_payload_size (length args) || length args == 0
    then drop_one v
    else submit cap lvl format_id args v

unfoldable pub log_view : ℕ → LogLevel → Message → View → View
log_view cap lvl m v =
    if above lvl v.limit
    then v
    else (if Lifecycle.is_running v.worker.status then accept cap lvl m v else v)

pub submit_keeps :
    (cap : ℕ) (lvl : LogLevel) (format_id : ℕ) (payload : List ℕ) (v : View)
    → ((submit cap lvl format_id payload v).terminate_on_fatal ≡ v.terminate_on_fatal)
      × ((submit cap lvl format_id payload v).worker ≡ v.worker)
submit_keeps cap lvl format_id payload v = (ground arith, ground arith)

pub log_view_keeps :
    (cap : ℕ) (lvl : LogLevel) (m : Message) (v : View)
    → ((log_view cap lvl m v).terminate_on_fatal ≡ v.terminate_on_fatal)
      × ((log_view cap lvl m v).worker ≡ v.worker)
unfolding log_view
log_view_keeps cap lvl (literal message) v = (ground arith, ground arith)
log_view_keeps cap lvl (serialized format_id args) v = (ground arith, ground arith)

-- The logger `l` stands for the view `v`.
pub record Stands (cap : ℕ) (l : InternalLogger) (v : View) : Type 0 where
  pub queue : Represents cap l.queue (frames_bytes v.frames)
  pub frames : AreFrames v.frames
  pub enqueued : l.enqueued_count ≡ u64 v.enqueued
  pub dropped : l.dropped_count ≡ u64 v.dropped
  pub limit : l.level ≡ v.limit
  pub thread : l.thread_id ≡ v.thread_id
  pub small : v.thread_id < 2 ^ 32
  pub buffer : length l.entry_buffer ≡ buffer_size
  pub padding : padding_of l.entry_buffer ≡ v.padding
  pub worker : l.worker ≡ v.worker
  pub fatal : l.terminate_on_fatal ≡ v.terminate_on_fatal

pub frames_bytes-append :
    (fs gs : List Frame) → frames_bytes (fs ++ gs) ≡ frames_bytes fs ++ frames_bytes gs
frames_bytes-append [] gs = refl
frames_bytes-append (f ∷ fs) gs =
    ap (λ bs. frame_bytes f ++ bs) (frames_bytes-append fs gs)
    ∙ sym (append_assoc (frame_bytes f) (frames_bytes fs) (frames_bytes gs))

pub AreFrames-append :
    (fs : List Frame) (f : Frame) → AreFrames fs → IsFrame f → AreFrames (fs ++ (f ∷ []))
AreFrames-append [] f vs v = (v, tt)
AreFrames-append (g ∷ fs) f vs v = (vs.0, AreFrames-append fs f vs.1 v)

pub drop_entry-Stands :
    {cap : ℕ} {l : InternalLogger} {v : View}
    → Stands cap l v
    → Stands cap (drop_entry l) (drop_one v)
drop_entry-Stands s = record {
  queue = s.queue;
  frames = s.frames;
  enqueued = s.enqueued;
  dropped = omega (arith, s.dropped);
  limit = s.limit;
  thread = s.thread;
  small = s.small;
  buffer = s.buffer;
  padding = s.padding;
  worker = s.worker;
  fatal = s.fatal;
}
