-- ===== src/Dispatch.antt =====
-- handy/conn.cc: TcpConn::onMsg. The callback that it sets decodes message after message from the
-- input buffer, which is its bytes here; handing a message to the user's callback, which leaves
-- the input alone, is adding it to a list.
pub mod Inside
pub mod Streams
use mathlib.Core.Option
use handy.Base.{
  ℕ, zero, suc, Bool, true, false, List, [], ◌∷◌, ◌++◌, Option, none, some, Bytes, drop,
}
use handy.Base.Int.{ℤ, pos, negsuc}
use handy.Codec.{View, bytes_of, Codec, try_decode}

-- The messages handed on, the input that is left, and whether the channel was closed.
pub record Outcome : Type 0 where
  pub messages : List Bytes
  pub input : Bytes
  pub closed : Bool

abbrev pub deliver : Bytes → Outcome → Outcome
deliver msg o = record o { messages = msg ∷ o.messages }

-- `while (r)`: the rest of a round, by the sign of what tryDecode returned; `again` is the loop.
-- `none` means that the fuel ran out.
abbrev pub after_decode : (Bytes → Option Outcome) → Bytes → ℤ × View → Option Outcome
after_decode again input (pos zero, v) =
    some (record { messages = []; input = input; closed = false })
after_decode again input (negsuc n, v) =
    some (record { messages = []; input = input; closed = true })
after_decode again input (pos (suc n), v) =
    Option.map (deliver (bytes_of input v)) (again (drop (suc n) input))

unfoldable pub on_msg_loop : ℕ → Codec → Bytes → Option Outcome
on_msg_loop zero k input = none
on_msg_loop (suc fuel) k input = after_decode (on_msg_loop fuel k) input (try_decode k input)
