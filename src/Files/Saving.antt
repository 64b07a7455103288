-- ===== src/Files/Saving.antt =====
-- handy/file.cc: writeContent and renameSave.
use handy.Base.{
  ℕ, ◌≡◌, ◌⊎◌, inl, inr, refl, sym, ap, ◌∙◌, subst, true, false, ◌&&◌, none, some, [], ◌∷◌, ◌++◌,
  arith, Bool-cases, Bytes, codes, length, take, same_bytes, same_bytes_iff,
}
use handy.Base.Int.{as_int_small}
use handy.Status.{Status, ok}
use handy.Files.{
  write_answered, printed, written_status, checked, write_opened, write_content, int_status,
  rename_file, rename_save,
}
use handy.Files.System.{
  Answer, succeeds, fails, Count, counts, count_fails, FileSystem, IsLawful, is_done, has_counted,
  accepted, IsAnswer, IsCount,
}
use handy.Files.Reading.{io_error-fails, ok-ok_status}

-- Success is what writeContent returns where write has not failed.
written_status-ok :
    (name : Bytes) (errno : ℕ × Bytes) (len : ℕ) (n : Count)
    → IsCount len n
    → ok (written_status name errno n) ≡ has_counted n
unfolding written_status int_status
written_status-ok name errno len (counts n) (most, small) =
    ap (λ i. ok (int_status name errno i)) (as_int_small n small) ∙ ok-ok_status
written_status-ok name errno len (count_fails number text) fair =
    io_error-fails number text (codes "write") name fair

checked-ok : (op name : Bytes) (a : Answer) → IsAnswer a → ok (checked op name a) ≡ is_done a
unfolding checked
checked-ok op name succeeds fair = ok-ok_status
checked-ok op name (fails number text) fair = io_error-fails number text op name fair

module _ (F : FileSystem) where
  -- What write takes of `cont` where writeContent calls it.
  unfoldable pub taken : F.State → Bytes → Bytes → Bytes
  taken s name cont =
      take (accepted (F.write (F.open_write s (printed name)).1 (printed name) cont).0) cont

module _ (F : FileSystem) (L : IsLawful F) where
  -- All other files are as before, and where the status is ok, the file has what write took.
  Writes : F.State → Bytes → Bytes → Status × F.State → Type 0
  Writes s name cont r =
      ((m : Bytes) → same_bytes m (printed name) ≡ false → L.contents r.1 m ≡ L.contents s m)
      × (ok r.0 ≡ true → L.contents r.1 (printed name) ≡ some (taken F s name cont))

  write_opened-Writes :
      (s : F.State) (name cont : Bytes)
      → let t = (F.open_write s (printed name)).1 in
        is_done (F.open_write s (printed name)).0 ≡ true
        → Writes s name cont (write_opened F t name cont)
  unfolding Writes write_opened taken
  write_opened-Writes s name cont e =
      let p = printed name in
      let t = (F.open_write s p).1 in
      let same : same_bytes p p ≡ true = (same_bytes_iff p p).1 refl in
      let empty : L.contents t p ≡ some [] = L.contents-open_write s p p ∙ rw (e, same) refl in
      (
        λ m other.
            L.contents-write t p cont [] m empty
            ∙ rw other (L.contents-open_write s p m ∙ rw (e, other) refl),
        λ h. L.contents-write t p cont [] p empty ∙ rw same refl,
      )

  answered-Writes :
      (s : F.State) (name cont : Bytes) (a : Answer)
      → a ≡ (F.open_write s (printed name)).0
      → Writes s name cont (write_answered F (F.open_write s (printed name)).1 name cont a)
  unfolding write_answered
  answered-Writes s name cont succeeds e = write_opened-Writes s name cont (ap is_done (sym e))
  answered-Writes s name cont (fails number text) e =
      let p = printed name in
      let failed : is_done (F.open_write s p).0 ≡ false = ap is_done (sym e) in
      let fair = subst IsAnswer (sym e) (L.open_write-IsAnswer s p) in
      let fails_ok = io_error-fails number text (codes "open") name fair in
      unfold Writes in (λ m other. L.contents-open_write s p m ∙ rw failed refl, λ h. absurd cc)

  write_content-Writes :
      (s : F.State) (name cont : Bytes) → Writes s name cont (write_content F s name cont)
  unfolding write_content
  write_content-Writes s name cont =
      answered-Writes s name cont (F.open_write s (printed name)).0 refl

  write_opened-ok :
      (t : F.State) (name cont : Bytes)
      → ok (write_opened F t name cont).0 ≡ has_counted (F.write t (printed name) cont).0
  unfolding write_opened
  write_opened-ok t name cont =
      written_status-ok name (F.errno (F.write t (printed name) cont).1) (length cont)
        (F.write t (printed name) cont).0 (L.write-IsCount t (printed name) cont)

  answered-ok :
      (t : F.State) (name cont : Bytes) (a : Answer)
      → IsAnswer a
      → ok (write_answered F t name cont a).0
        ≡ (is_done a && has_counted (F.write t (printed name) cont).0)
  unfolding write_answered
  answered-ok t name cont succeeds fair = write_opened-ok t name cont
  answered-ok t name cont (fails number text) fair =
      io_error-fails number text (codes "open") name fair

  -- What writeContent has done: open and write have succeeded and the file holds what write took, or one
  -- of them has failed and the status says so.
  unfoldable pub HasWritten : F.State → Bytes → Bytes → Status × F.State → Type 0
  HasWritten s name cont r =
      let a = F.open_write s (printed name) in
      let done = is_done a.0 && has_counted (F.write a.1 (printed name) cont).0 in
      ((ok r.0 ≡ true)
        × ((done ≡ true) × (L.contents r.1 (printed name) ≡ some (taken F s name cont))))
      ⊎ ((ok r.0 ≡ false) × (done ≡ false))

  ok-done :
      (s : F.State) (name cont : Bytes)
      → let a = F.open_write s (printed name) in
        ok (write_content F s name cont).0
        ≡ (is_done a.0 && has_counted (F.write a.1 (printed name) cont).0)
  unfolding write_content
  ok-done s name cont =
      let a = F.open_write s (printed name) in
      answered-ok a.1 name cont a.0 (L.open_write-IsAnswer s (printed name))

  -- writeContent returns success where open and write succeed, and the file holds what write took of the
  -- content then, a short count included; otherwise it returns a failure. No other file changes.
  pub write_content_lem :
      (s : F.State) (name cont m : Bytes)
      → same_bytes m (printed name) ≡ false
      → let r = write_content F s name cont in
        (L.contents r.1 m ≡ L.contents s m) × HasWritten s name cont r
  unfolding Writes HasWritten
  write_content_lem s name cont m other =
      let r = write_content F s name cont in
      let w = write_content-Writes s name cont in
      (
        w.0 m other,
        elim (Bool-cases (ok r.0)) [
          | inl e ↦ inl (e, (sym (ok-done s name cont) ∙ e, w.1 e))
          | inr e ↦ inr (e, sym (ok-done s name cont) ∙ e)
        ],
      )

  -- The new content is under the name and the other name is gone, or the status says that this is not
  -- so, and the old content is under the name still, or the name is gone and the new content is under
  -- the other one.
  unfoldable pub Saves : F.State → Bytes → Bytes → Bytes → Status × F.State → Type 0
  Saves s name tmp cont r =
      let new = some (taken F s tmp cont) in
      ((ok r.0 ≡ true)
        × ((L.contents r.1 (printed name) ≡ new) × (L.contents r.1 (printed tmp) ≡ none)))
      ⊎ ((ok r.0 ≡ false)
          × ((L.contents r.1 (printed name) ≡ L.contents s (printed name))
              ⊎ ((L.contents r.1 (printed name) ≡ none) × (L.contents r.1 (printed tmp) ≡ new))))

  rename-Saves :
      (s u : F.State) (name tmp cont : Bytes)
      → same_bytes (printed tmp) (printed name) ≡ false
      → L.contents u (printed tmp) ≡ some (taken F s tmp cont)
      → (L.contents u (printed name) ≡ L.contents s (printed name))
        ⊎ (L.contents u (printed name) ≡ none)
      → Saves s name tmp cont (rename_file F u tmp name)
  unfolding Saves rename_file
  rename-Saves s u name tmp cont other new old =
      let p = printed name in
      let q = printed tmp in
      let self_p : same_bytes p p ≡ true = (same_bytes_iff p p).1 refl in
      let self_q : same_bytes q q ≡ true = (same_bytes_iff q q).1 refl in
      let a = (F.rename u q p).0 in
      let answer = checked-ok (codes "rename") (tmp ++ b' ' ∷ name) a (L.rename-IsAnswer u q p) in
      elim (Bool-cases (is_done a)) [
        | inl e ↦ inl (
          answer ∙ e,
          (
            L.contents-rename u q p p ∙ rw (e, self_p) new,
            L.contents-rename u q p q ∙ rw (e, other, self_q) refl,
          ),
        )
        | inr e ↦
            let at_p = L.contents-rename u q p p ∙ rw e refl in
            let at_q = L.contents-rename u q p q ∙ rw e refl in
            inr
              (answer ∙ e, elim old [ inl h ↦ inl (at_p ∙ h) | inr h ↦ inr (at_p ∙ h, at_q ∙ new) ])
      ]

  -- renameSave to another name of another file leaves the old content or what write took of the new
  -- one, whichever calls fail: on success what write took, which may be cut short, under the name, and the
  -- temporary name is gone; otherwise the old content under the name still, or the name is gone and
  -- what write took is under the temporary name.
  pub rename_save_lem :
      (s : F.State) (name tmp cont : Bytes)
      → same_bytes (printed name) (printed tmp) ≡ false
      → same_bytes (printed tmp) (printed name) ≡ false
      → Saves s name tmp cont (rename_save F s name tmp cont)
  unfolding rename_save Writes
  rename_save_lem s name tmp cont other_name other_tmp =
      let p = printed name in
      let q = printed tmp in
      let r = write_content F s tmp cont in
      let w : Writes s tmp cont r = write_content-Writes s tmp cont in
      let u = (F.unlink r.1 p).1 in
      elim (Bool-cases (ok r.0)) [
        | inr e ↦ rw e (unfold Saves in (inr (e, inl (w.0 p other_name))))
        | inl e ↦ rw e (
            rename-Saves s u name tmp cont other_tmp
              (L.contents-unlink r.1 p q ∙ rw other_tmp (ground (arith, w.1 e)))
              (elim (Bool-cases (is_done (F.unlink r.1 p).0)) [
                | inl d ↦ inr (L.contents-unlink r.1 p p ∙ rw (d, (same_bytes_iff p p).1 refl) refl)
                | inr d ↦ inl (L.contents-unlink r.1 p p ∙ rw d (w.0 p other_name))
              ]))
      ]
