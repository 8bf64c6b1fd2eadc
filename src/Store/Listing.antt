-- ===== src/Store/Listing.antt =====
-- internal/store/file/file_store_list.go: `ListSessions` and `ListConversations`, which filter, sort
-- newest first, and cut out a page. `sort.Slice` says nothing of the order of equal times; here the
-- earlier of two files comes later.
use vitis.Prelude.{
  ℕ, Bool, true, false, not, ◌&&◌, Option, none, some, List, [], ◌∷◌, ℤ, pos, pos_part, length,
  take, drop, ltb, ltb_ℤ, leb_ℤ, if◌then◌else◌,
}
use vitis.Text.{equal}
use vitis.Model.Session.{RunStatus, Session, SessionFilter, ConversationFilter}
use vitis.Model.Conversation.{Conversation, ConversationStatus}
use vitis.Store.Disk.{
  Disk, Dir, sessions, conversations, FilePath, Opened, absent, failed, content, read_file,
  json_files, dir_path, read,
}
use vitis.Store.Records.{Coding, Result, ok, err, list_failed}
use vitis.Store.File.{Store}

-- A page of a list, and the number of all.
abbrev pub Page : Type 0 → Type 0
Page A = List A × ℕ

module _ {A : Type 0} where
  unfoldable pub insert_newest : (A → ℕ) → A → List A → List A
  insert_newest time x [] = x ∷ []
  insert_newest time x (y ∷ ys) =
      let later = insert_newest time x ys in if ltb (time y) (time x) then x ∷ y ∷ ys else y ∷ later

  unfoldable pub newest_first : (A → ℕ) → List A → List A
  unfolding insert_newest
  newest_first time [] = []
  newest_first time (x ∷ xs) = insert_newest time x (newest_first time xs)

  abbrev cut_to : ℤ → List A → List A
  cut_to limit l =
      if ltb_ℤ (pos 0) limit && ltb (pos_part limit) (length l) then take (pos_part limit) l else l

  unfoldable pub page_of : ℤ → ℤ → List A → List A
  page_of limit offset l =
      if leb_ℤ (pos (length l)) offset
      then []
      else cut_to limit (if ltb_ℤ (pos 0) offset then drop (pos_part offset) l else l)

  abbrev decoded_of : Coding A → Opened → Option A
  decoded_of c absent = none
  decoded_of c failed = none
  decoded_of c (content t) = c.decode t

  abbrev keep_if : (A → Bool) → Option A → List A → List A
  keep_if fits none rest = rest
  keep_if fits (some a) rest = if fits a then a ∷ rest else rest

  -- The loop over the entries; a file that cannot be read or decoded is passed over.
  unfoldable pub collect : Coding A → (A → Bool) → Disk → List FilePath → List A
  unfolding read_file
  collect c fits d [] = []
  collect c fits d (p ∷ ps) = keep_if fits (decoded_of c (read_file p d)) (collect c fits d ps)

  unfoldable pub list_json : Coding A → (A → Bool) → (A → ℕ) → ℤ → ℤ → Dir → Disk → Result (Page A)
  unfolding collect newest_first page_of json_files
  list_json c fits time limit offset dir d =
      let all = newest_first time (collect c fits d (json_files dir d.files)) in
      if not (d.made dir)
      then ok ([], 0)
      else if d.denied read (dir_path dir)
      then err list_failed
      else ok (page_of limit offset all, length all)

same_run_status : RunStatus → RunStatus → Bool
same_run_status RunStatus.running RunStatus.running = true
same_run_status RunStatus.completed RunStatus.completed = true
same_run_status RunStatus.blocked_on_input RunStatus.blocked_on_input = true
same_run_status RunStatus.permission_prompt RunStatus.permission_prompt = true
same_run_status RunStatus.auth_required RunStatus.auth_required = true
same_run_status RunStatus.rate_limited RunStatus.rate_limited = true
same_run_status RunStatus.interrupted RunStatus.interrupted = true
same_run_status RunStatus.timeout RunStatus.timeout = true
same_run_status RunStatus.partial RunStatus.partial = true
same_run_status RunStatus.crashed RunStatus.crashed = true
same_run_status RunStatus.failed RunStatus.failed = true
same_run_status (RunStatus.other s) (RunStatus.other t) = equal s t
same_run_status _ _ = false

same_conversation_status : ConversationStatus → ConversationStatus → Bool
same_conversation_status ConversationStatus.running ConversationStatus.running = true
same_conversation_status ConversationStatus.completed_sentinel
      ConversationStatus.completed_sentinel =
    true
same_conversation_status ConversationStatus.completed_judge ConversationStatus.completed_judge =
    true
same_conversation_status ConversationStatus.max_turns_hit ConversationStatus.max_turns_hit = true
same_conversation_status ConversationStatus.peer_crashed ConversationStatus.peer_crashed = true
same_conversation_status ConversationStatus.peer_blocked ConversationStatus.peer_blocked = true
same_conversation_status ConversationStatus.timeout ConversationStatus.timeout = true
same_conversation_status ConversationStatus.interrupted ConversationStatus.interrupted = true
same_conversation_status ConversationStatus.error ConversationStatus.error = true
same_conversation_status (ConversationStatus.other s) (ConversationStatus.other t) = equal s t
same_conversation_status _ _ = false

unfoldable pub session_fits : SessionFilter → Session → Bool
unfolding same_run_status
session_fits filter s = elim filter.status [
  | none ↦ true
  | some status ↦ same_run_status s.status status
]

unfoldable pub conversation_fits : ConversationFilter → Conversation → Bool
unfolding same_conversation_status
conversation_fits filter c = elim filter.status [
  | none ↦ true
  | some status ↦ same_conversation_status c.status status
]

module _ (store : Store) where
  unfoldable pub list_sessions : SessionFilter → Disk → Result (Page Session)
  unfolding list_json session_fits
  list_sessions filter d =
      list_json store.session (session_fits filter) (λ s. s.started_at) filter.limit filter.offset
        sessions d

  unfoldable pub list_conversations : ConversationFilter → Disk → Result (Page Conversation)
  unfolding list_json conversation_fits
  list_conversations filter d =
      list_json store.conversation (conversation_fits filter) (λ c. c.created_at) filter.limit
        filter.offset conversations d
