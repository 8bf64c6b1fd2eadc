-- ===== src/Store/Disk.antt =====
-- The file system as internal/store/file uses it: the files of the store's four directories by their
-- contents, and the accesses that the operating system denies, which do not change. A file is named
-- by the directory, the id and the extension; ids are file names, so they hold no slash.
use vitis.Prelude.{
  Bool, true, false, not, ◌&&◌, ◌||◌, Option, none, some, List, [], ◌∷◌, ◌++◌, if◌then◌else◌,
}
use vitis.Text.{Text, equal}

-- `sessionsDir`, `turnsDir`, `rawDir` and `conversationsDir`
pub data Dir : Type 0 where
  sessions turns raw conversations : Dir

pub data Ext : Type 0 where
  json json_tmp jsonl : Ext

pub record FilePath : Type 0 where
  pub dir : Dir
  pub id : Text
  pub ext : Ext

pub data Access : Type 0 where
  read write rename remove append make : Access

pub record Disk : Type 0 where
  pub files : List (FilePath × Text)
  pub made : Dir → Bool
  pub denied : Access → FilePath → Bool

abbrev pub same_dir : Dir → Dir → Bool
same_dir sessions sessions = true
same_dir turns turns = true
same_dir raw raw = true
same_dir conversations conversations = true
same_dir _ _ = false

abbrev pub same_ext : Ext → Ext → Bool
same_ext json json = true
same_ext json_tmp json_tmp = true
same_ext jsonl jsonl = true
same_ext _ _ = false

abbrev pub same : FilePath → FilePath → Bool
same p q = same_dir p.dir q.dir && equal p.id q.id && same_ext p.ext q.ext

abbrev pub Files : Type 0
Files = List (FilePath × Text)

unfoldable pub find : FilePath → Files → Option Text
find p [] = none
find p ((q, content) ∷ rest) = let later = find p rest in if same q p then some content else later

unfoldable pub erase : FilePath → Files → Files
erase p [] = []
erase p ((q, content) ∷ rest) =
    let later = erase p rest in if same q p then later else (q, content) ∷ later

unfoldable pub put : FilePath → Text → Files → Files
unfolding erase
put p content files = (p, content) ∷ erase p files

-- What an open for reading yields.
pub data Opened : Type 0 where
  absent failed : Opened
  content : Text → Opened

abbrev pub opened : Option Text → Opened
opened none = absent
opened (some t) = content t

-- `os.ReadFile`, and `os.Open` with all that is read of it
unfoldable pub read_file : FilePath → Disk → Opened
unfolding find
read_file p d = if d.denied read p then failed else opened (find p d.files)

-- `os.WriteFile`; a failed call returns `false`.
unfoldable pub write_file : FilePath → Text → Disk → Bool × Disk
unfolding put
write_file p t d =
    if d.denied write p || not (d.made p.dir)
    then (false, d)
    else (true, record d { files = put p t d.files })

abbrev moved_to : FilePath → FilePath → Option Text → Disk → Bool × Disk
moved_to from to none d = (false, d)
moved_to from to (some t) d = (true, record d { files = put to t (erase from d.files) })

-- `os.Rename`, which replaces the target
unfoldable pub rename_file : FilePath → FilePath → Disk → Bool × Disk
unfolding find put
rename_file from to d =
    if d.denied rename to then (false, d) else moved_to from to (find from d.files) d

-- `os.Remove`
unfoldable pub remove_file : FilePath → Disk → Disk
unfolding erase
remove_file p d = if d.denied remove p then d else record d { files = erase p d.files }

abbrev pub text_of : Option Text → Text
text_of none = []
text_of (some t) = t

-- `os.OpenFile` with O_CREATE and O_APPEND, which makes an absent file.
unfoldable pub open_append : FilePath → Disk → Bool × Disk
unfolding find put
open_append p d =
    if d.denied append p || not (d.made p.dir)
    then (false, d)
    else (true, record d { files = put p (text_of (find p d.files)) d.files })

-- A write to a file that was opened so.
unfoldable pub append_text : FilePath → Text → Disk → Bool × Disk
unfolding find put
append_text p t d =
    if d.denied write p
    then (false, d)
    else (true, record d { files = put p (text_of (find p d.files) ++ t) d.files })

abbrev pub dir_path : Dir → FilePath
dir_path dir = record { dir = dir; id = []; ext = json }

-- `os.MkdirAll`
unfoldable pub mkdir_all : Dir → Disk → Bool × Disk
mkdir_all dir d =
    if d.denied make (dir_path dir)
    then (false, d)
    else (true, record d { made = λ e. same_dir e dir || d.made e })

-- The files with the extension `.json` in a directory, in the order in which `os.ReadDir` is taken
-- to yield them.
unfoldable pub json_files : Dir → Files → List FilePath
json_files dir [] = []
json_files dir ((p, _) ∷ rest) =
    let later = json_files dir rest in
    if same_dir p.dir dir && same_ext p.ext json then p ∷ later else later
