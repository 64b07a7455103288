-- ===== src/Buffer/Contents.antt =====
-- What each operation of `Buffer` does to the bytes held, and that it keeps the buffer valid.
use handy.Base.{
  ℕ, ◌+◌, ◌*◌, ◌/◌, ◌≤◌, ◌<◌, max, ◌≡◌, inl, inr, refl, sym, ap, ◌∙◌, [], ◌++◌, arith, ltb, leb,
  ◌==◌, Bool-cases, Bytes, length,
}
use handy.Base.Sizes.{add_size_t}
use handy.Buffer.{
  Buffer, size, space, contents, move_head, expand, make_room, make_room_suggested, append,
  add_size, clear, receive, absorb, write_end,
}
use handy.Buffer.Validity.{
  IsValid, size-eq, space-eq, length-contents, length-overwrite, contents-window, window,
  window_extend,
}
use handy.Buffer.Room.{
  IsSmall, Appends, contents-none, HasRoom, move_head-IsValid, contents-move_head, expand-IsValid,
  contents-expand,
}
use handy.Buffer.Consuming.{clear_lem}

module _ (fresh : ℕ → Bytes) (fresh_length : (n : ℕ) → length (fresh n) ≡ n) where
  -- makeRoom(len) leaves the bytes as they were and makes room for `len` more, on every branch.
  pub make_room-HasRoom :
      (r : Buffer) (len : ℕ) → IsValid r → IsSmall r len → HasRoom r len (make_room fresh r len)
  unfolding make_room
  make_room-HasRoom r len v s = elim (Bool-cases (leb (add_size_t r.e len) r.cap)) [
    | inl fits ↦
        rw (fits, make_room)
          (record {
            valid = v;
            same = refl;
            room = ground arith;
            exp_kept = refl;
            growth = omega arith;
            end_le = omega arith;
          })
    | inr full ↦ elim (Bool-cases (ltb (add_size_t (size r) len) (r.cap / 2))) [
      | inl head ↦
          rw (full, head, make_room)
            (record {
              valid = move_head-IsValid r v;
              same = contents-move_head r v;
              room = unfold move_head in ground (arith, size-eq r v);
              exp_kept = unfold move_head in refl;
              growth = unfold move_head in omega arith;
              end_le = unfold move_head in omega arith;
            })
      | inr low ↦
          rw (full, low, make_room)
            (record {
              valid = expand-IsValid fresh fresh_length r len v s;
              same = contents-expand fresh fresh_length r len v s;
              room = unfold expand in omega (arith, size-eq r v);
              exp_kept = unfold expand in refl;
              growth = unfold expand in ground (arith, size-eq r v);
              end_le = unfold expand in omega arith;
            })
    ]
  ]

  -- makeRoom() leaves the bytes as they were, and there is then room for a byte at least, so that
  -- a read of space() bytes that gives 0 is the end of the stream.
  pub make_room_suggested-HasRoom :
      (r : Buffer)
      → IsValid r
      → IsSmall r 0
      → let m = make_room_suggested fresh r in
        IsValid m
        × (contents m ≡ contents r)
        × (m.exp ≡ r.exp)
        × (m.cap ≤ max r.cap (2 * r.exp + 2 * r.e))
        × (m.e ≤ r.e)
        × (0 < r.exp → m.e < m.cap)
  unfolding make_room_suggested
  make_room_suggested-HasRoom r v s = elim (Bool-cases (ltb (space r) r.exp)) [
    | inl low ↦
        rw (low, make_room_suggested)
          (
            expand-IsValid fresh fresh_length r 0 v s,
            contents-expand fresh fresh_length r 0 v s,
            unfold expand in refl,
            unfold expand in ground (arith, size-eq r v, space-eq r v),
            unfold expand in omega arith,
            unfold expand in λ h. ground (arith, size-eq r v, space-eq r v),
          )
    | inr enough ↦
        rw (enough, make_room_suggested)
          (v, refl, refl, omega arith, omega arith, λ h. ground (arith, space-eq r v))
  ]

  -- memcpy to end() and addSize
  write_end-IsValid :
      (m : Buffer) (xs : Bytes) → IsValid m → m.e + length xs ≤ m.cap → IsValid (write_end m xs)
  unfolding add_size
  write_end-IsValid m xs v h = record {
    owned = length-overwrite m.cells xs m.e (omega (arith, v.owned)) ∙ v.owned;
    ordered = omega arith;
    within = omega arith;
    bounded = v.bounded;
  }

  write_end-holds :
      (m : Buffer) (xs : Bytes)
      → IsValid m
      → m.e + length xs ≤ m.cap
      → contents (write_end m xs) ≡ contents m ++ xs
  unfolding add_size
  write_end-holds m xs v h =
      let end : (write_end m xs).e ≡ m.e + length xs = omega arith in
      contents-window (write_end m xs) (write_end-IsValid m xs v h)
      ∙ ap (window (write_end m xs).cells m.b) end
      ∙ window_extend m.cells xs m.b m.e v.ordered (omega (arith, v.owned))
      ∙ ap (λ k. k ++ xs) (sym (contents-window m v))

  -- append(p, len) puts the bytes behind those held.
  pub append-Appends :
      (r : Buffer) (xs : Bytes)
      → IsValid r
      → IsSmall r (length xs)
      → Appends r xs (append fresh r xs)
  unfolding append add_size
  append-Appends r xs v s =
      let m = make_room fresh r (length xs) in
      let h = make_room-HasRoom r (length xs) v s in
      record {
        valid = write_end-IsValid m xs h.valid h.room;
        holds = write_end-holds m xs h.valid h.room ∙ ap (λ t. t ++ xs) h.same;
        exp_kept = h.exp_kept;
        growth = omega (arith, h.growth, size-eq r v);
        end_le = omega (arith, h.end_le, h.room, h.valid.bounded);
      }

  -- So does reading into the room that makeRoom() leaves.
  pub receive-Appends :
      (r : Buffer) (xs : Bytes)
      → IsValid r
      → IsSmall r 0
      → length xs ≤ space (make_room_suggested fresh r)
      → Appends r xs (receive fresh r xs)
  unfolding receive add_size
  receive-Appends r xs v s fits =
      let m = make_room_suggested fresh r in
      let h = make_room_suggested-HasRoom r v s in
      let room : m.e + length xs ≤ m.cap = omega (arith, space-eq m h.0, h.0.within) in
      record {
        valid = write_end-IsValid m xs h.0 room;
        holds = write_end-holds m xs h.0 room ∙ ap (λ t. t ++ xs) h.1;
        exp_kept = h.2;
        growth = omega (arith, h.3);
        end_le = omega (arith, h.4, room, h.0.bounded);
      }

  -- a.absorb(o): the bytes of both are in `a`, in order, `o` is empty, and each keeps its own
  -- suggested size.
  pub absorb_lem :
      (a o : Buffer)
      → IsValid a
      → IsValid o
      → IsSmall a (size o)
      → let r = absorb fresh a o in
        IsValid r.0
        × IsValid r.1
        × (contents r.0 ≡ contents a ++ contents o)
        × (contents r.1 ≡ [])
        × (r.0.exp ≡ a.exp)
        × (r.1.exp ≡ o.exp)
  unfolding absorb
  absorb_lem a o v w s = elim (Bool-cases (size a == 0)) [
    | inl empty ↦
        let bare : contents a ≡ [] = contents-none a (ground arith) in
        rw (empty, absorb)
          (
            record { owned = w.owned; ordered = w.ordered; within = w.within; bounded = w.bounded },
            record { owned = v.owned; ordered = v.ordered; within = v.within; bounded = v.bounded },
            rw bare (unfold contents size in refl),
            (unfold contents size in bare),
            refl,
            refl,
          )
    | inr held ↦
        let small : IsSmall a (length (contents o)) = record {
          cap_small = s.cap_small;
          exp_small = s.exp_small;
          len_small = omega (arith, length-contents o w, s.len_small);
        } in
        let t = append-Appends a (contents o) v small in
        rw (held, absorb)
          (t.valid, (clear_lem o).0, t.holds, (clear_lem o).1, t.exp_kept, (unfold clear in refl))
  ]
