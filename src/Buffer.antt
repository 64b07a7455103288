-- ===== src/Buffer.antt =====
-- handy/net.h and handy/net.cc: `Buffer`, a byte queue in one growing array. `buf_` is the list of
-- the bytes that it points at, [] for NULL; sizes are size_t and wrap as they do there. What
-- `new char[n]` holds is not specified, so it is a parameter, `fresh`, and only its length is known.
pub mod Validity
pub mod Room
pub mod Consuming
pub mod Contents
pub mod Copying
pub mod Refinement
use handy.Base.{
  ℕ, zero, suc, ◌+◌, ◌-◌, ◌/◌, max, List, [], ◌∷◌, ◌++◌, Bytes, take, drop, length, leb, ltb, ◌==◌,
  if◌then◌else◌, Bool,
}
use handy.Base.Sizes.{add_size_t, sub_size_t, mul_size_t}

pub record Buffer : Type 0 where
  pub cells : Bytes
  pub b : ℕ
  pub e : ℕ
  pub cap : ℕ
  pub exp : ℕ

-- Buffer()
abbrev pub new_buffer : Buffer
new_buffer = record { cells = []; b = 0; e = 0; cap = 0; exp = 512 }

-- memcpy(cells + i, xs, length xs)
abbrev pub overwrite : Bytes → ℕ → Bytes → Bytes
overwrite cells i xs = take i cells ++ (xs ++ drop (i + length xs) cells)

pub clear : Buffer → Buffer
clear r = record r { cells = []; cap = 0; b = 0; e = 0 }

unfoldable pub size : Buffer → ℕ
size r = sub_size_t r.e r.b

pub is_empty : Buffer → Bool
is_empty r = r.e == r.b

pub space : Buffer → ℕ
space r = sub_size_t r.cap r.e

-- operator Slice(): the bytes from data(), size() of them
pub contents : Buffer → Bytes
unfolding size
contents r = take (size r) (drop r.b r.cells)

pub add_size : Buffer → ℕ → Buffer
add_size r len = record r { e = add_size_t r.e len }

-- memcpy(end(), xs, length xs), then addSize
abbrev pub write_end : Buffer → Bytes → Buffer
write_end m xs = add_size (record m { cells = overwrite m.cells m.e xs }) (length xs)

pub set_suggest_size : Buffer → ℕ → Buffer
set_suggest_size r sz = record r { exp = sz }

pub move_head : Buffer → Buffer
unfolding contents
move_head r = record r { cells = overwrite r.cells 0 (contents r); b = 0; e = sub_size_t r.e r.b }

pub consume : Buffer → ℕ → Buffer
unfolding size clear
consume r len = let c = record r { b = add_size_t r.b len } in if size c == 0 then clear c else c

module _ (fresh : ℕ → Bytes) where
  unfoldable pub expand : Buffer → ℕ → Buffer
  unfolding size contents
  expand r len =
      let ncap = max r.exp (max (mul_size_t 2 r.cap) (add_size_t (size r) len)) in
      record r {
        cells = overwrite (fresh ncap) 0 (contents r);
        b = 0;
        e = sub_size_t r.e r.b;
        cap = ncap;
      }

  -- makeRoom(len)
  unfoldable pub make_room : Buffer → ℕ → Buffer
  make_room r len =
      if leb (add_size_t r.e len) r.cap
      then r
      else if ltb (add_size_t (size r) len) (r.cap / 2)
      then move_head r
      else expand r len

  -- makeRoom()
  pub make_room_suggested : Buffer → Buffer
  make_room_suggested r = if ltb (space r) r.exp then expand r 0 else r

  pub alloc_room : Buffer → ℕ → Buffer
  unfolding add_size
  alloc_room r len = add_size (make_room r len) len

  -- append(p, len): the bytes are copied to where end() was before allocRoom moved it
  unfoldable pub append : Buffer → Bytes → Buffer
  unfolding add_size
  append r xs = write_end (make_room r (length xs)) xs

  -- read(fd, end(), space()) gives the bytes, then addSize(rd), as TcpConn::handleRead does
  pub receive : Buffer → Bytes → Buffer
  unfolding add_size
  receive r xs = write_end (make_room_suggested r) xs

  -- the test `if (b.buf_)` of copyFrom, on what buf_ points at
  pub copy_cells : Bytes → Buffer → Buffer
  copy_cells [] r = r
  copy_cells (_ ∷ _) r = record r { cells = overwrite (fresh r.cap) r.b (contents r) }

  -- copyFrom(b): the copy
  pub copy_from : Buffer → Buffer
  unfolding copy_cells
  copy_from r = copy_cells r.cells r

  -- a.absorb(o) of two different buffers: what `a` and `o` are afterwards
  pub absorb : Buffer → Buffer → Buffer × Buffer
  absorb a o =
      if size a == 0
      then (record o { exp = a.exp }, record a { exp = o.exp })
      else (append a (contents o), clear o)
