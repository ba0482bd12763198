-- ===== src/Packets.antt =====
-- `ZincPacket` of inc/network/minecraft/ZincPacket.h and src/network/minecraft/ZincPacket.cpp: a number
-- and the buffer with the packet's data. The comparisons of buffers stand here too, since this is their
-- use.
pub mod Copies
use zinc.Common.{
  ℕ, ◌^◌, ◌-◌, Bool, true, false, not, ◌&&◌, ◌==◌, Option, none, some, List, [], take,
}
use zinc.Buffer
use zinc.Buffer.{InternalByteBuffer}
use zinc.ByteBuffer.{ByteBuffer, empty, get_bytes, size}
use zinc.Text.{string_eq}

-- `InternalByteBuffer::operator==`
unfoldable pub internal_buffer_eq : InternalByteBuffer → InternalByteBuffer → Bool
internal_buffer_eq s t =
    same_position (Buffer.get_reader s) (Buffer.get_reader t)
    && same_position (Buffer.get_writer s) (Buffer.get_writer t)
    && string_eq (Buffer.get_bytes s) (Buffer.get_bytes t)
    && same_flag s.enable_block_recycle t.enable_block_recycle
  where
    same_flag : Bool → Bool → Bool
    same_flag true c = c
    same_flag false c = not c

    same_position : ℕ × ℕ → ℕ × ℕ → Bool
    same_position (b, o) (c, q) = (b == c) && (o == q)

-- `ByteBuffer::operator==`
unfoldable pub buffer_eq : ByteBuffer → ByteBuffer → Bool
buffer_eq b c =
    order_eq b.is_big_endian c.is_big_endian
    && internal_buffer_eq b.internal_buffer c.internal_buffer
  where
    order_eq : Bool → Bool → Bool
    order_eq true c = c
    order_eq false c = not c

pub record ZincPacket : Type 0 where
  pub id : ℕ
  pub data_ : ByteBuffer

-- `ZincPacket(id)`
unfoldable pub new_packet : ℕ → ZincPacket
new_packet id = record { id = id; data_ = empty true }

-- `ZincPacket()`
abbrev pub default_packet : ZincPacket
default_packet = new_packet (2 ^ 32 - 1)

-- What `getData` and `setData` do to the buffer that takes the data: its order, the bytes, recycling.
unfoldable pub take_over : ByteBuffer → ByteBuffer → Option ByteBuffer
take_over source target =
    elim (Buffer.write (take (size source) (get_bytes source)) target.internal_buffer) [
      | none ↦ none
      | some s ↦ some (record {
        internal_buffer = Buffer.toggle_block_recycle source.internal_buffer.enable_block_recycle s;
        is_big_endian = source.is_big_endian;
      })
    ]

unfoldable pub get_data : ZincPacket → Option ByteBuffer
get_data p = take_over p.data_ (empty true)

unfoldable pub set_id : ℕ → ZincPacket → ZincPacket
set_id id p = record p { id = id }

unfoldable pub set_data : ByteBuffer → ZincPacket → Option ZincPacket
set_data source p = elim (take_over source p.data_) [
  | none ↦ none
  | some b ↦ some (record p { data_ = b })
]

-- `ZincPacket(id, data)`
unfoldable pub of_data : ℕ → ByteBuffer → Option ZincPacket
of_data id source = set_data source (new_packet id)

-- `ZincPacket::operator==`
unfoldable pub packet_eq : ZincPacket → ZincPacket → Option Bool
packet_eq p q = elim (get_data q) [
  | none ↦ none
  | some b ↦ some (buffer_eq p.data_ b && (p.id == q.id))
]
