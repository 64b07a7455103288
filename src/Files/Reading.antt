-- ===== src/Files/Reading.antt =====
-- handy/file.cc: getContent.
use handy.Files.System.{IsErrno, IsLawful, AreReads, IsAnswer}
use handy.Base.{
  ℕ, ◌<◌, ◌≡◌, ◌⊎◌, inl, inr, refl, sym, ap, ◌∙◌, true, false, some, List, [], ◌∷◌, ◌++◌,
  append-nil, append_assoc, arith, ◌==◌, Bytes, codes,
}
use handy.Status.{Status, ok_status, ok, code}
use handy.Files.System.{succeeds}
use handy.Status.Copies.{code-from_format, IsInt}
use handy.Base.Int.{pos, negsuc}
use handy.Files.{
  io_error, printed, read_loop, FileSystem, Read, get_content, gets, Answer, read_fails,
  read_opened, fails,
}

ok-code : (s : Status) (n : ℕ) → code s ≡ pos n → 0 < n → ok s ≡ false
unfolding ok
ok-code s n e h =
    let no_zero : (n == 0) ≡ false = ground arith in
    ap (λ c. elim c [ pos k ↦ k == 0 | negsuc k ↦ false ]) e ∙ no_zero

pub code-io_error :
    (number : ℕ) (text op name : Bytes)
    → IsErrno number
    → code (io_error number text op name) ≡ pos number
unfolding io_error
code-io_error number text op name (positive, small) =
    code-from_format (pos number) (printed op ++ b' ' ∷ (printed name ++ b' ' ∷ printed text))
      (unfold IsInt in small)

-- A number that is not 0 as an int is not success.
pub io_error-fails :
    (number : ℕ) (text op name : Bytes) → IsErrno number → ok (io_error number text op name) ≡ false
io_error-fails number text op name (positive, small) =
    ok-code (io_error number text op name) number
      (code-io_error number text op name (positive, small)) positive

pub ok-ok_status : ok ok_status ≡ true
unfolding ok code ok_status
ok-ok_status = refl

-- A status of ioError for this name, with an errno.
unfoldable pub Fails : Bytes → Status → Type 0
Fails name st =
    (number : ℕ) × ((text : Bytes) × ((op : Bytes) × (IsErrno number
          × (st ≡ io_error number text op name))))

-- The caller has what it had and a piece of the file from its start, all of it or a failure.
unfoldable pub HasRead : Bytes → Bytes → Bytes → Status × Bytes → Type 0
HasRead name cont bs r =
    (got : Bytes) × ((rest : Bytes) × ((bs ≡ got ++ rest)
        × ((r.1 ≡ cont ++ got) × (((r.0 ≡ ok_status) × (rest ≡ [])) ⊎ Fails name r.0))))

more :
    (name cont piece bs rest : Bytes) (r : Status × Bytes)
    → bs ≡ piece ++ rest
    → HasRead name (cont ++ piece) rest r
    → HasRead name cont bs r
unfolding HasRead
more name cont piece bs rest r e (got, (left, (whole, (has, all)))) = (
  piece ++ got,
  (
    left,
    (
      e ∙ ap (◌++◌ piece) whole ∙ sym (append_assoc piece got left),
      (has ∙ append_assoc cont piece got, all),
    ),
  ),
)

none_left : (name cont bs : Bytes) → bs ≡ [] → HasRead name cont bs (ok_status, cont)
unfolding HasRead
none_left name cont bs e = ([], ([], (e, (sym (append-nil cont), inl (refl, refl)))))

none_read :
    (number : ℕ) (text op name cont bs : Bytes)
    → IsErrno number
    → HasRead name cont bs (io_error number text op name, cont)
unfolding HasRead Fails
none_read number text op name cont bs h =
    ([], (bs, (refl, (sym (append-nil cont), inr (number, (text, (op, (h, refl))))))))

read_loop-HasRead :
    (name cont bs : Bytes) (rs : List Read)
    → AreReads bs rs
    → HasRead name cont bs (read_loop name cont rs)
unfolding read_loop
read_loop-HasRead name cont bs [] e = none_left name cont bs e
read_loop-HasRead name cont bs (gets [] ∷ later) e = none_left name cont bs e
read_loop-HasRead name cont bs (gets (c ∷ cs) ∷ later) (rest, (e, h)) =
    more name cont (c ∷ cs) bs rest (read_loop name (cont ++ c ∷ cs) later) e
      (read_loop-HasRead name (cont ++ c ∷ cs) rest later h)
read_loop-HasRead name cont bs (read_fails number text ∷ later) h =
    none_read number text (codes "read") name cont bs h

opened-HasRead :
    (name cont bs : Bytes) (rs : List Read) (a : Answer)
    → IsAnswer a
    → AreReads bs rs
    → HasRead name cont bs (read_opened name cont rs a)
unfolding read_opened
opened-HasRead name cont bs rs succeeds fair h = read_loop-HasRead name cont bs rs h
opened-HasRead name cont bs rs (fails number text) fair h =
    none_read number text (codes "open") name cont bs fair

module _ (F : FileSystem) (L : IsLawful F) where
  pub get_content-HasRead :
      (s : F.State) (name cont bs : Bytes)
      → L.contents s (printed name) ≡ some bs
      → HasRead name cont bs (get_content F s name cont)
  unfolding get_content
  get_content-HasRead s name cont bs holds =
      opened-HasRead name cont bs (F.reads s (printed name)) (F.open_read s (printed name))
        (L.open_read-IsAnswer s (printed name)) (L.reads-AreReads s (printed name) bs holds)
