-- ===== src/Examples/Stores.antt =====
-- Runs of the file store with toy codings, and its theorems at concrete inputs.
use vitis.Prelude.{
  ℕ, zero, suc, ◌≡◌, refl, Bool, true, false, Option, none, some, List, [], ◌∷◌, pos, length, arith,
  ◌==◌, inl, ap,
}
use vitis.Text.{Text, codes}
use vitis.Model.Session.{RunStatus, Session, SessionPatch, SessionTurn}
use vitis.Text.Lines.{Free}
use vitis.Store.Lines.{drop_cr}
use vitis.Store.Disk.{find, Disk, Dir, sessions}
use vitis.Store.Records.{Coding, ok, err, scan_failed, read_failed}
use vitis.Store.File.{session_path, patched_session, Store, turn_path, append_turn, peek_turns}
use vitis.Store.Kept.{HoldsLog}
use vitis.Store.Represents.{Represents}
use vitis.Store.Spec.{
  StoreOp, create_session, update_session, Contents, promised, promised_all, perform_all, AllFit,
}
use vitis.Store.Spec
use vitis.Store.Refine.{Answers, perform_all_refines}
use vitis.Store.Limits.{peek_turns_too_long}

abbrev session_of : RunStatus → Text → Session
session_of status id = record {
  id = id;
  provider = [];
  status = status;
  started_at = 0;
  ended_at = none;
  duration_ms = none;
  exit_code = none;
  parser_confidence = none;
  observation_confidence = none;
  auth_mode = [];
  blocked_reason = none;
  bytes_captured = none;
  warnings = [];
  terminal_cols = none;
  terminal_rows = none;
}

-- A session is coded by a digit for its status and its id.
abbrev status_code : RunStatus → ℕ
status_code RunStatus.running = b'0'
status_code _ = b'1'

abbrev read_session : Text → Option Session
read_session [] = none
read_session (c ∷ id) =
    some
      (session_of (elim (c == b'0') [ true ↦ RunStatus.running | false ↦ RunStatus.completed ]) id)

abbrev session_coding : Coding Session
session_coding = record {
  encode = λ s. some (status_code s.status ∷ s.id);
  encode_indent = λ s. some (status_code s.status ∷ s.id);
  decode = read_session;
}

abbrev turn_of : Text → SessionTurn
turn_of content = record {
  session_id = codes "s";
  index = pos 0;
  role = codes "user";
  content = content;
  created_at = 0;
}

-- A turn is coded by its content.
abbrev turn_coding : Coding SessionTurn
turn_coding = record {
  encode = λ t. some t.content;
  encode_indent = λ t. some t.content;
  decode = λ t. some (turn_of t);
}

abbrev no_coding : {A : Type 0} → Coding A
no_coding = record { encode = λ x. none; encode_indent = λ x. none; decode = λ t. none }

abbrev toy_store : Store
toy_store = record {
  debug_raw = false;
  session = session_coding;
  turn = turn_coding;
  event = no_coding;
  conversation = no_coding;
  conversation_turn = no_coding;
}

abbrev made_three : Dir → Bool
made_three Dir.conversations = false
made_three _ = true

abbrev empty_disk : Disk
empty_disk = record { files = []; made = made_three; denied = λ x p. false }

abbrev nothing : Contents
nothing = record {
  sessions = λ id. none;
  turns = λ id. [];
  conversations = λ id. none;
  conversation_turns = λ id. [];
}

empty_disk-Represents : Represents toy_store empty_disk nothing
unfolding find
empty_disk-Represents = record {
  is_open = record { allows = λ x p. refl; has_sessions = refl; has_turns = refl; has_raw = refl };
  shelf = inl (λ id. refl);
  sessions = λ id. refl;
  turns = λ id. ([], refl, tt);
  conversations = λ id. refl;
  conversation_turns = λ id. ([], refl, tt);
}

abbrev finished : SessionPatch
finished = record {
  status = some RunStatus.completed;
  ended_at = none;
  duration_ms = none;
  exit_code = none;
  parser_confidence = none;
  observation_confidence = none;
  auth_mode = none;
  blocked_reason = none;
  bytes_captured = none;
  warnings = none;
  terminal_cols = none;
  terminal_rows = none;
}

abbrev ops : List StoreOp
ops =
    create_session (session_of RunStatus.running (codes "s"))
    ∷ Spec.append_turn (turn_of (codes "hi"))
    ∷ update_session (codes "s") finished
    ∷ update_session (codes "none") finished
    ∷ []

ops-AllFit : AllFit toy_store ops nothing
unfolding promised patched_session drop_cr
ops-AllFit = (
  (codes "0s", refl, refl),
  (
    (codes "hi", refl, (refl, (refl, tt)), omega arith, refl),
    (
      (λ s e.
          let same : session_of RunStatus.running (codes "s") ≡ s = cc in
          rw (← same) (codes "1s", refl, refl)),
      ((λ s e. absurd (cc)), tt),
    ),
  ),
)

perform_all_refines_example :
    ((perform_all toy_store ops empty_disk).0 ≡ (promised_all ops nothing).0)
    × Answers toy_store (perform_all toy_store ops empty_disk).1 (promised_all ops nothing).1
perform_all_refines_example =
    perform_all_refines toy_store ops empty_disk nothing empty_disk-Represents ops-AllFit

-- What the operations say: the last one updates a session that is not there.
ops_said : (promised_all ops nothing).0 ≡ ok tt ∷ ok tt ∷ ok tt ∷ err read_failed ∷ []
unfolding promised_all
ops_said = refl

-- Three sessions, of which one does not decode.
abbrev listed_disk : Disk
listed_disk = record empty_disk {
  files =
      (session_path (codes "s"), codes "0s")
      ∷ (session_path (codes "t"), [])
      ∷ (session_path (codes "u"), codes "1u")
      ∷ [];
}

abbrev any_session : Session → Bool
any_session s = true

-- As many letters as it takes.
letters : ℕ → Text
letters zero = []
letters (suc n) = b'x' ∷ letters n

length-letters : (n : ℕ) → length (letters n) ≡ n
unfolding letters
length-letters zero = refl
length-letters (suc n) = ap suc (length-letters n)

letters-Free : (n : ℕ) → Free 10 (letters n)
unfolding letters
letters-Free zero = tt
letters-Free (suc n) = (refl, letters-Free n)

no_turns : HoldsLog turn_coding 65536 (turn_path (codes "s")) empty_disk []
unfolding find
no_turns = ([], refl, tt)

peek_turns_too_long_example :
    (d' : Disk) × (append_turn toy_store (turn_of (letters 65536)) empty_disk ≡ (ok tt, d'))
    × (peek_turns toy_store (codes "s") (pos 10) d' ≡ err scan_failed)
peek_turns_too_long_example =
    peek_turns_too_long toy_store empty_disk (turn_of (letters 65536)) [] (letters 65536) (pos 10)
      empty_disk-Represents.is_open no_turns refl (letters-Free 65536)
      (rw length-letters (omega arith))
