-- ===== src/Message.antt =====
-- comm_network/message.h: the messages of the protocol and the records of pending reads.
use comm_network.Prelude.{List, length, ◌≡◌, ℕ, Bool, Option}
use comm_network.Prelude.Int.{ℤ, pos}

-- A callback is a number, and NULL is none.
pub record WorkRecord : Type 0 where
  pub machine_id : ℤ
  pub begin_addr : ℕ
  pub bytes : ℕ
  pub offset : ℕ
  pub cb : Option ℕ

pub record UserMsg : Type 0 where
  pub msg_type : ℤ
  pub ptr : ℕ
  pub bytes : ℕ

pub record PleaseWrite : Type 0 where
  pub dst_machine_id : ℤ
  pub src_addr : ℕ
  pub bytes : ℕ

pub record FreeBufferPair : Type 0 where
  pub src_machine_id : ℤ
  pub buffer_id : ℤ
  pub last_piece : Bool

-- What a `Msg` is made from; only a user's message has a callback. The copy of the payload that `Msg`
-- allocates is not null and not empty.
pub data Msg : Type 0 where
  user_message : UserMsg → Option ℕ → Msg
  please_write_message : PleaseWrite → Msg
  free_buffer_message : FreeBufferPair → Msg

-- `MsgType`, with `kNumType` = 3.
abbrev pub num_type : ℤ
num_type = pos 3

abbrev pub please_write_key : ℤ
please_write_key = pos 1

abbrev pub free_buffer_key : ℤ
free_buffer_key = pos 2

-- How the compiler lays the two structures out in memory, as bytes.
pub record Layout : Type 0 where
  pub please_write_size : ℕ
  pub put_please_write : PleaseWrite → List ℕ
  pub get_please_write : List ℕ → PleaseWrite
  pub free_buffer_size : ℕ
  pub put_free_buffer : FreeBufferPair → List ℕ
  pub get_free_buffer : List ℕ → FreeBufferPair

-- A structure is read back from its own bytes, and `sizeof` counts them.
pub record IsLayout (l : Layout) : Type 0 where
  pub get-put_please_write : (p : PleaseWrite) → l.get_please_write (l.put_please_write p) ≡ p
  pub length-put_please_write :
      (p : PleaseWrite) → length (l.put_please_write p) ≡ l.please_write_size
  pub get-put_free_buffer : (f : FreeBufferPair) → l.get_free_buffer (l.put_free_buffer f) ≡ f
  pub length-put_free_buffer :
      (f : FreeBufferPair) → length (l.put_free_buffer f) ≡ l.free_buffer_size
