-- ===== src/Peer/Persistent.antt =====
-- persistent.go: `PersistentProcess`. The pump is a function of the events that its select yields, and
-- `ConverseTurn` one of what each of its wake-ups finds. An error's message is left out; what it shows
-- is an argument of its constructor.
use vitis.Prelude.{
  ℕ, ℤ, pos, Bool, true, false, List, [], ◌∷◌, ◌++◌, Option, none, some, ltb, if◌then◌else◌, length,
  take, drop,
}
use vitis.Text.{Text, is_empty}
use vitis.Peer.{find_line_anchored_marker, strip_envelope_echo}

-- `pumping` is that the pump runs, so that `pumpDone` is open.
pub record PersistentProcess : Type 0 where
  pub buffer : Text
  pub cursor : ℕ
  pub exited : Bool
  pub exit_code : ℤ
  pub pumping : Bool
  pub closed : Bool

unfoldable pub new_persistent_process : PersistentProcess
new_persistent_process = record {
  buffer = [];
  cursor = 0;
  exited = false;
  exit_code = pos 0;
  pumping = true;
  closed = false;
}

pub data PumpEvent : Type 0 where
  output : Text → PumpEvent
  output_closed : PumpEvent
  done : ℤ → PumpEvent
  done_closed : PumpEvent

abbrev stopped : PersistentProcess → PersistentProcess
stopped p = record p { exited = true; pumping = false }

abbrev pumped : PumpEvent → PersistentProcess → PersistentProcess
pumped (output bytes) p = record p { buffer = p.buffer ++ bytes }
pumped output_closed p = stopped p
pumped (done code) p = stopped (record p { exit_code = code })
pumped done_closed p = stopped p

-- `pump`, which has returned after an end.
unfoldable pub pump : List PumpEvent → PersistentProcess → PersistentProcess
pump [] p = p
pump (ev ∷ evs) p = pump evs (if p.pumping then pumped ev p else p)

-- What the condition variable's loop finds at one check: the pump's events since the last, the
-- context's error, and whether the deadline has passed.
pub record Wake : Type 0 where
  pub events : List PumpEvent
  pub ctx_err : Option Text
  pub late : Bool

pub data Answer : Type 0 where
  replied : Text → Answer
  empty_marker : Answer
  write_failed : Text → Answer
  overflowed : ℕ → Answer
  process_exited : ℤ → Answer
  context_ended : Text → Answer
  timed_out : Answer

-- 64 << 20
abbrev pub max_buffer_bytes : ℕ
max_buffer_bytes = 67108864

abbrev pub unread : PersistentProcess → Text
unread p = drop p.cursor p.buffer

abbrev pub ended : PersistentProcess → Option Text → Bool → Option Answer
ended p ctx_err late = if p.exited then some (process_exited p.exit_code) else elim ctx_err [
  | some e ↦ some (context_ended e)
  | none ↦ if late then some timed_out else none
]

abbrev pub scanned :
    PersistentProcess → Text → Option ℕ → Option Answer → PersistentProcess × Option Answer
scanned p marker none after =
    if ltb max_buffer_bytes (length (unread p))
    then (p, some (overflowed (length (unread p))))
    else (p, after)
scanned p marker (some i) after = (
  record p { buffer = []; cursor = 0 },
  some (replied (strip_envelope_echo (take i (unread p)) marker)),
)

-- One round of the loop of `ConverseTurn`, under the lock.
unfoldable pub check :
    Text → Option Text → Bool → PersistentProcess → PersistentProcess × Option Answer
unfolding find_line_anchored_marker strip_envelope_echo
check marker ctx_err late p =
    if ltb p.cursor (length p.buffer)
    then scanned p marker (find_line_anchored_marker (unread p) marker) (ended p ctx_err late)
    else (p, ended p ctx_err late)

abbrev pub or_await :
    (PersistentProcess → PersistentProcess × Option Answer)
    → PersistentProcess × Option Answer
    → PersistentProcess × Option Answer
or_await rest (p, some a) = (p, some a)
or_await rest (p, none) = rest p

-- The loop, for the wake-ups given; `none` is that it waits on.
unfoldable pub await : Text → List Wake → PersistentProcess → PersistentProcess × Option Answer
unfolding check pump
await marker [] p = (p, none)
await marker (w ∷ ws) p =
    or_await (await marker ws) (check marker w.ctx_err w.late (pump w.events p))

-- `ConverseTurn`, with the error of the write.
unfoldable pub converse_turn :
    Text → Option Text → List Wake → PersistentProcess → PersistentProcess × Option Answer
unfolding await
converse_turn marker write_err wakes p =
    if is_empty marker
    then (p, some empty_marker)
    else elim write_err [ some e ↦ (p, some (write_failed e)) | none ↦ await marker wakes p ]

-- `Close`, with the pump's events up to its end, and whether it terminates the process.
unfoldable pub close : List PumpEvent → PersistentProcess → PersistentProcess × Bool
unfolding pump
close events p = if p.closed then (p, false) else (pump events (record p { closed = true }), true)

-- `drainAvailable`
unfoldable pub drain_available : PersistentProcess → PersistentProcess × Text
drain_available p =
    if ltb p.cursor (length p.buffer)
    then (record p { cursor = length p.buffer }, unread p)
    else (p, [])
