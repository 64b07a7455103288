-- ===== src/Files.antt =====
-- handy/file.h and handy/file.cc: `file`. The calls of the system are a record over a state of the
-- files that nothing is known of; a name is what c_str() gives of it.
pub mod System
pub mod Reading
pub mod Saving
pub mod Serving
use mathlib.Core.Option
use mathlib.Core.Path.{ap₂}
use handy.Base.Int.{ℤ, pos, negsuc, as_int}
use handy.Base.{
  ℕ, zero, suc, ◌+◌, ◌-◌, ◌*◌, ◌/◌, ◌%◌, ◌^◌, ◌≤◌, ◌<◌, min, max, ◌≡◌, ◌≢◌, ◌↔◌, ◌⊎◌, inl, inr,
  refl, sym, ap, ◌∙◌, subst, Bool, true, false, not, ◌&&◌, ◌||◌, Option, none, some, List, [], ◌∷◌,
  ◌++◌, map, reverse, append-nil, append_assoc, arith, ltb, leb, ◌==◌, if◌then◌else◌, ltb→lt,
  lt→ltb, leb→le, ==_iff, ==_self, Bool-cases, ℕ-cases, List-cases, Option-cases, if_cases, Bytes,
  codes, length, take, drop, get_elem?, All, length-append, length-take, length-drop,
  take-append-drop, take-all, drop-all, take-append, drop-append, take-append_le, drop-append_le,
  take-append_ge, drop-drop, take-drop, same_bytes, same_bytes_iff,
}
use handy.Status.{Status, ok_status, from_format, ok}
use handy.Http.Request.{printed}
use handy.Files.System.{
  Answer, succeeds, fails, Count, counts, count_fails, Read, gets, read_fails, Size, measures,
  size_fails, Listing, lists, list_fails, FileSystem,
}

-- Status::ioError: `number` is errno and `text` what strerror says of it
unfoldable pub io_error : ℕ → Bytes → Bytes → Bytes → Status
unfolding from_format
io_error number text op name =
    from_format (pos number) (printed op ++ b' ' ∷ (printed name ++ b' ' ∷ printed text))

-- `if (call(...) != 0) return Status::ioError(op, name); return Status();`
unfoldable pub checked : Bytes → Bytes → Answer → Status
unfolding io_error
checked op name succeeds = ok_status
checked op name (fails number text) = io_error number text op name

-- The loop of getContent: `cont` so far, and what the reads answer; behind the last one a read gives 0.
unfoldable pub read_loop : Bytes → Bytes → List Read → Status × Bytes
unfolding io_error
read_loop name cont [] = (ok_status, cont)
read_loop name cont (gets [] ∷ later) = (ok_status, cont)
read_loop name cont (gets (c ∷ cs) ∷ later) = read_loop name (cont ++ c ∷ cs) later
read_loop name cont (read_fails number text ∷ later) =
    (io_error number text (codes "read") name, cont)

-- getContent, from the answer of open and those of the reads
unfoldable pub read_opened : Bytes → Bytes → List Read → Answer → Status × Bytes
unfolding read_loop io_error
read_opened name cont rs succeeds = read_loop name cont rs
read_opened name cont rs (fails number text) = (io_error number text (codes "open") name, cont)

-- `if (r < 0)`
unfoldable pub int_status : Bytes → ℕ × Bytes → ℤ → Status
unfolding io_error
int_status name errno (pos k) = ok_status
int_status name errno (negsuc k) = io_error errno.0 errno.1 (codes "write") name

-- What writeContent makes of the answer of write, whose ssize_t it keeps in an int; `errno` is for
-- the case that the int is negative though write has not failed.
unfoldable pub written_status : Bytes → ℕ × Bytes → Count → Status
unfolding io_error int_status as_int
written_status name errno (counts n) = int_status name errno (as_int n)
written_status name errno (count_fails number text) = io_error number text (codes "write") name

module _ (F : FileSystem) where
  -- getContent: what is left of the status and of `cont`
  unfoldable pub get_content : F.State → Bytes → Bytes → Status × Bytes
  unfolding read_opened
  get_content s name cont =
      read_opened name cont (F.reads s (printed name)) (F.open_read s (printed name))

  -- writeContent, where the file has been opened
  unfoldable pub write_opened : F.State → Bytes → Bytes → Status × F.State
  unfolding written_status
  write_opened s name cont =
      let (n, t) = F.write s (printed name) cont in (written_status name (F.errno t) n, t)

  -- writeContent, from the answer of open
  unfoldable pub write_answered : F.State → Bytes → Bytes → Answer → Status × F.State
  unfolding write_opened
  write_answered t name cont succeeds = write_opened t name cont
  write_answered t name cont (fails number text) = (io_error number text (codes "open") name, t)

  unfoldable pub write_content : F.State → Bytes → Bytes → Status × F.State
  unfolding write_answered
  write_content s name cont =
      let (a, t) = F.open_write s (printed name) in write_answered t name cont a

  unfoldable pub rename_file : F.State → Bytes → Bytes → Status × F.State
  unfolding checked
  rename_file s src target =
      let (a, t) = F.rename s (printed src) (printed target) in
      (checked (codes "rename") (src ++ b' ' ∷ target) a, t)

  -- renameSave
  unfoldable pub rename_save : F.State → Bytes → Bytes → Bytes → Status × F.State
  unfolding write_content rename_file
  rename_save s name tmp_name cont =
      let (st, t) = write_content s tmp_name cont in
      if ok st then rename_file ((F.unlink t (printed name)).1) tmp_name name else (st, t)

  -- getChildren: what `*result` holds at the end
  unfoldable pub get_children : F.State → Bytes → Status × List Bytes
  unfolding io_error
  get_children s dir = elim (F.entries s (printed dir)) [
    | lists names ↦ (ok_status, names)
    | list_fails number text ↦ (io_error number text (codes "opendir") dir, [])
  ]

  unfoldable pub delete_file : F.State → Bytes → Status × F.State
  unfolding checked
  delete_file s name =
      let (a, t) = F.unlink s (printed name) in (checked (codes "unlink") name a, t)

  unfoldable pub create_dir : F.State → Bytes → Status × F.State
  unfolding checked
  create_dir s name = let (a, t) = F.mkdir s (printed name) in (checked (codes "mkdir") name a, t)

  unfoldable pub delete_dir : F.State → Bytes → Status × F.State
  unfolding checked
  delete_dir s name = let (a, t) = F.rmdir s (printed name) in (checked (codes "rmdir") name a, t)

  -- getFileSize: the status and `*size`
  unfoldable pub get_file_size : F.State → Bytes → Status × ℕ
  unfolding io_error
  get_file_size s name = elim (F.stat s (printed name)) [
    | measures n ↦ (ok_status, n)
    | size_fails number text ↦ (io_error number text (codes "stat") name, 0)
  ]

  unfoldable pub file_exists : F.State → Bytes → Bool
  file_exists s name = F.access s (printed name)
