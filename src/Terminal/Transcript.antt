-- ===== src/Terminal/Transcript.antt =====
-- internal/terminal/transcript.go: `Transcript`. A time is a number, and 0 the zero time.
use vitis.Prelude.{
  ℕ, ℤ, pos, sub_nat, ◌+◌, ◌-◌, Bool, [], ◌++◌, Option, none, some, ltb, ◌==◌, if◌then◌else◌,
  length, drop,
}
use vitis.Text.{Text, is_empty}
use vitis.Terminal.Normalize.{normalize_pty_text}

-- The part of `model.StreamEvent` that is read here.
pub record StreamEvent : Type 0 where
  pub timestamp : ℕ
  pub data_of : Text

pub record Transcript : Type 0 where
  pub full_raw : Text
  pub tail : Text
  pub tail_capacity : ℕ
  pub last_output_at : ℕ
  pub first_output_at : ℕ
  pub exit_code : Option ℤ
  pub bytes_seen : ℕ

abbrev pub default_capacity : ℕ
default_capacity = 65536

-- `NewTranscript`
unfoldable pub new_transcript : ℕ → Transcript
new_transcript capacity = record {
  full_raw = [];
  tail = [];
  tail_capacity = if ltb 0 capacity then capacity else default_capacity;
  last_output_at = 0;
  first_output_at = 0;
  exit_code = none;
  bytes_seen = 0;
}

-- The last `n` bytes.
unfoldable pub last_bytes : ℕ → Text → Text
last_bytes n t = if ltb n (length t) then drop (length t - n) t else t

-- `Append`
unfoldable pub append : StreamEvent → Transcript → Transcript
unfolding last_bytes
append event t = if is_empty event.data_of then t else record t {
  first_output_at = if t.first_output_at == 0 then event.timestamp else t.first_output_at;
  last_output_at = event.timestamp;
  bytes_seen = t.bytes_seen + length event.data_of;
  full_raw = t.full_raw ++ event.data_of;
  tail = last_bytes t.tail_capacity (t.tail ++ event.data_of);
}

-- `RecordExit`
unfoldable pub record_exit : ℤ → Transcript → Transcript
record_exit code t = record t { exit_code = some code }

-- `Normalized` and `TailNormalized`
unfoldable pub normalized : Transcript → Text
unfolding normalize_pty_text
normalized t = normalize_pty_text t.full_raw

unfoldable pub tail_normalized : Transcript → Text
unfolding normalize_pty_text
tail_normalized t = normalize_pty_text t.tail

-- `IdleSince`
unfoldable pub idle_since : ℕ → Transcript → ℤ
idle_since now t = if t.last_output_at == 0 then pos 0 else sub_nat now t.last_output_at

-- `HasOutput`
unfoldable pub has_output : Transcript → Bool
has_output t = ltb 0 t.bytes_seen
