-- ===== src/Files/System.antt =====
-- handy/file.cc: what it calls of the system, as a parameter, and the documented behaviour of these
-- calls. A call that fails gives errno and the text of strerror.
use handy.Base.{
  ℕ, ◌^◌, ◌≤◌, ◌<◌, ◌≡◌, Bool, true, false, ◌&&◌, Option, none, some, List, [], ◌∷◌, ◌++◌,
  if◌then◌else◌, Bytes, length, take, same_bytes,
}

pub data Answer : Type 0 where
  succeeds : Answer
  fails : ℕ → Bytes → Answer

-- of write
pub data Count : Type 0 where
  counts : ℕ → Count
  count_fails : ℕ → Bytes → Count

-- of read: the bytes it put into the buffer, none at the end of the file
pub data Read : Type 0 where
  gets : Bytes → Read
  read_fails : ℕ → Bytes → Read

-- of stat
pub data Size : Type 0 where
  measures : ℕ → Size
  size_fails : ℕ → Bytes → Size

-- of opendir, and the names that readdir gives then
pub data Listing : Type 0 where
  lists : List Bytes → Listing
  list_fails : ℕ → Bytes → Listing

-- open_write is open with O_WRONLY | O_CREAT | O_TRUNC; write goes to the file that has been opened by
-- this name, and reads are the answers of all reads of it. errno is what is left of the last failure.
pub record FileSystem : Type 1 where
  pub State : Type 0
  pub errno : State → ℕ × Bytes
  pub open_write : State → Bytes → Answer × State
  pub write : State → Bytes → Bytes → Count × State
  pub open_read : State → Bytes → Answer
  pub reads : State → Bytes → List Read
  pub unlink : State → Bytes → Answer × State
  pub rename : State → Bytes → Bytes → Answer × State
  pub mkdir : State → Bytes → Answer × State
  pub rmdir : State → Bytes → Answer × State
  pub stat : State → Bytes → Size
  pub access : State → Bytes → Bool
  pub entries : State → Bytes → Listing

abbrev pub is_done : Answer → Bool
is_done succeeds = true
is_done (fails number text) = false

abbrev pub has_counted : Count → Bool
has_counted (counts n) = true
has_counted (count_fails number text) = false

abbrev pub accepted : Count → ℕ
accepted (counts n) = n
accepted (count_fails number text) = 0

-- errno is a positive int
abbrev pub IsErrno : ℕ → Type 0
IsErrno n = (0 < n) × (n < 2 ^ 31)

abbrev pub IsAnswer : Answer → Type 0
IsAnswer succeeds = Unit
IsAnswer (fails number text) = IsErrno number

-- write takes no more than it is given, and less than 2 ^ 31 bytes
abbrev pub IsCount : ℕ → Count → Type 0
IsCount len (counts n) = (n ≤ len) × (n < 2 ^ 31)
IsCount len (count_fails number text) = IsErrno number

-- The reads of a file that holds these bytes: its pieces in order, up to a read that fails.
abbrev pub AreReads : Bytes → List Read → Type 0
AreReads bs [] = bs ≡ []
AreReads bs (gets [] ∷ later) = bs ≡ []
AreReads bs (gets (c ∷ cs) ∷ later) =
    (rest : Bytes) × ((bs ≡ (c ∷ cs) ++ rest) × AreReads rest later)
AreReads bs (read_fails number text ∷ later) = IsErrno number

-- No two names are of one file.
pub record IsLawful (F : FileSystem) : Type 0 where
  pub contents : F.State → Bytes → Option Bytes
  pub contents-open_write :
      (s : F.State) (n m : Bytes)
      → contents (F.open_write s n).1 m
        ≡ (if is_done (F.open_write s n).0 && same_bytes m n then some [] else contents s m)
  pub contents-write :
      (s : F.State) (n bs old m : Bytes)
      → contents s n ≡ some old
      → contents (F.write s n bs).1 m ≡ (
          if same_bytes m n
          then some (old ++ take (accepted (F.write s n bs).0) bs)
          else contents s m)
  pub contents-unlink :
      (s : F.State) (n m : Bytes)
      → contents (F.unlink s n).1 m
        ≡ (if is_done (F.unlink s n).0 && same_bytes m n then none else contents s m)
  pub contents-rename :
      (s : F.State) (src target m : Bytes)
      → contents (F.rename s src target).1 m ≡ (
          if is_done (F.rename s src target).0
          then (if same_bytes m target
              then contents s src
              else if same_bytes m src
              then none
              else contents s m)
          else contents s m)
  pub reads-AreReads :
      (s : F.State) (n bs : Bytes) → contents s n ≡ some bs → AreReads bs (F.reads s n)
  pub open_write-IsAnswer : (s : F.State) (n : Bytes) → IsAnswer (F.open_write s n).0
  pub write-IsCount : (s : F.State) (n bs : Bytes) → IsCount (length bs) (F.write s n bs).0
  pub open_read-IsAnswer : (s : F.State) (n : Bytes) → IsAnswer (F.open_read s n)
  pub rename-IsAnswer : (s : F.State) (n m : Bytes) → IsAnswer (F.rename s n m).0
