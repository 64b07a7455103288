-- ===== src/Tests/Disks.antt =====
-- A file system in memory, and the functions on files run on it.
use handy.Http.{get_value}
use handy.Base.Scan.{take_while}
use mathlib.Core.Option
use handy.Base.{
  min, ◌≡◌, refl, sym, true, false, Option, none, some, [], ◌∷◌, ◌++◌, append-nil, arith,
  if◌then◌else◌, Bytes, codes, length, take, same_bytes,
}
use handy.Status.{ok}
use handy.Files.{write_content, rename_save, get_content}
use handy.Files.Saving.{Saves, HasWritten, write_content_lem, rename_save_lem}
use handy.Files.Serving.{on_page_file, Shows, respond-on_page_file}
use handy.Http.Request.{clear_request, clear_response}
use handy.StatServer.{new_stat_server, respond}
use handy.Files.System.{
  succeeds, counts, gets, measures, size_fails, lists, FileSystem, IsLawful, AreReads,
}

-- Every call succeeds, and write takes three bytes at most.
abbrev memory_disk : FileSystem
memory_disk = record {
  State = Bytes → Option Bytes;
  errno = λ s. (0, []);
  open_write = λ s n. (succeeds, λ m. if same_bytes m n then some [] else s m);
  write = λ s n bs. (
    counts (min 3 (length bs)),
    λ m.
        if same_bytes m n
        then Option.map (λ old. old ++ take (min 3 (length bs)) bs) (s n)
        else s m,
  );
  open_read = λ s n. succeeds;
  reads = λ s n. elim (s n) [ none ↦ [] | some bs ↦ gets bs ∷ [] ];
  unlink = λ s n. (succeeds, λ m. if same_bytes m n then none else s m);
  rename = λ s src target. (
    succeeds,
    λ m. if same_bytes m target then s src else if same_bytes m src then none else s m,
  );
  mkdir = λ s n. (succeeds, s);
  rmdir = λ s n. (succeeds, s);
  stat = λ s n. elim (s n) [ none ↦ size_fails 2 [] | some bs ↦ measures (length bs) ];
  access = λ s n. elim (s n) [ none ↦ false | some bs ↦ true ];
  entries = λ s n. lists [];
}

one_read : (bs : Bytes) → AreReads bs (gets bs ∷ [])
one_read [] = refl
one_read (c ∷ cs) = ([], (sym (append-nil (c ∷ cs)), refl))

memory_disk-IsLawful : IsLawful memory_disk
memory_disk-IsLawful = record {
  contents = λ s n. s n;
  contents-open_write = λ s n m. refl;
  contents-write = λ s n bs old m e. rw e refl;
  contents-unlink = λ s n m. refl;
  contents-rename = λ s src target m. refl;
  reads-AreReads = λ s n bs e. rw e (one_read bs);
  open_write-IsAnswer = λ s n. tt;
  write-IsCount = λ s n bs. (omega arith, omega arith);
  open_read-IsAnswer = λ s n. tt;
  rename-IsAnswer = λ s n m. tt;
}

abbrev file_name : Bytes
file_name = codes "f"

abbrev tmp_name : Bytes
tmp_name = codes "f.tmp"

-- One file, with two bytes.
abbrev one_file : Bytes → Option Bytes
one_file n = if same_bytes n file_name then some (1 ∷ 2 ∷ []) else none

-- Five bytes are cut to three, and the status is success.
short_write : ok (write_content memory_disk one_file file_name (1 ∷ 2 ∷ 3 ∷ 4 ∷ 5 ∷ [])).0 ≡ true
unfolding write_content ok handy.Status.ok_status
short_write = refl

write_content_lem_example :
    let r = write_content memory_disk one_file tmp_name (7 ∷ 8 ∷ []) in
    (memory_disk-IsLawful.contents r.1 file_name ≡ memory_disk-IsLawful.contents one_file file_name)
    × HasWritten memory_disk memory_disk-IsLawful one_file tmp_name (7 ∷ 8 ∷ []) r
write_content_lem_example =
    write_content_lem memory_disk memory_disk-IsLawful one_file tmp_name (7 ∷ 8 ∷ []) file_name
      (unfold same_bytes in unfold take_while in refl)

rename_save_lem_example :
    Saves memory_disk memory_disk-IsLawful one_file file_name tmp_name
      (7 ∷ 8 ∷ [])
      (rename_save memory_disk one_file file_name tmp_name (7 ∷ 8 ∷ []))
rename_save_lem_example =
    rename_save_lem memory_disk memory_disk-IsLawful one_file file_name tmp_name (7 ∷ 8 ∷ [])
      (unfold same_bytes in unfold take_while in refl)
      (unfold same_bytes in unfold take_while in refl)

respond-on_page_file_example :
    Shows file_name
      (1 ∷ 2 ∷ [])
      clear_response
      (get_content memory_disk one_file file_name clear_response.msg.body).0
      (respond
        (on_page_file memory_disk one_file (codes "page") (codes "text") file_name new_stat_server)
        (record clear_request { uri = codes "/page" })
        clear_response)
unfolding memory_disk-IsLawful
respond-on_page_file_example =
    respond-on_page_file memory_disk memory_disk-IsLawful one_file b'p' (codes "age") (codes "text")
      file_name (1 ∷ 2 ∷ []) new_stat_server (record clear_request { uri = codes "/page" })
      clear_response (unfold same_bytes in unfold take_while in refl) refl
      (unfold get_value in unfold clear_request in refl)
