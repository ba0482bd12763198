-- ===== src/Packets/Copies.antt =====
-- `setData` appends the bytes of a buffer to a packet's data, and `getData` copies them all.
use zinc.Common.{ℕ, List, length, ◌≡◌, refl, ap, ap₂, sym, ◌∙◌, arith, Bool, true, some, ◌++◌, take}
use zinc.Common.Slices.{take_all}
use zinc.Buffer
use zinc.Buffer.{InternalByteBuffer, toggle_block_recycle}
use zinc.Buffer.View.{IsValid, contents, get_bytes-contents, length-contents}
use zinc.Buffer.Writing.{write-IsAppended, unread-write}
use zinc.ByteBuffer.{ByteBuffer, empty, get_bytes, size}
use zinc.ByteBuffer.Rules.{IsReady, unread}
use zinc.ByteBuffer.Raw.{empty-IsReady}
use zinc.Packets.{of_data, new_packet, ZincPacket, take_over, get_data, set_data}

bytes-contents : (b : ByteBuffer) → IsReady b → get_bytes b ≡ contents b.internal_buffer
unfolding get_bytes
bytes-contents b v = get_bytes-contents b.internal_buffer v

taken : (b : ByteBuffer) → IsReady b → take (size b) (get_bytes b) ≡ contents b.internal_buffer
unfolding size Buffer.get_writer
taken b v =
    ap (take _) (bytes-contents b v)
    ∙ take_all _ (contents b.internal_buffer) (omega (arith, length-contents b.internal_buffer v))

toggle-IsValid :
    (c : Bool) (s : InternalByteBuffer) → IsValid s → IsValid (toggle_block_recycle c s)
unfolding toggle_block_recycle
toggle-IsValid c s v = record {
  sizes = v.sizes;
  count = v.count;
  write_room = v.write_room;
  read_room = v.read_room;
  behind = v.behind;
}

record IsCopied (source target b : ByteBuffer) : Type 0 where
  valid : IsReady b
  joined :
      contents b.internal_buffer
      ≡ contents target.internal_buffer ++ contents source.internal_buffer
  next : unread b ≡ unread target ++ contents source.internal_buffer
  order : b.is_big_endian ≡ source.is_big_endian

take_over-IsCopied :
    (source target : ByteBuffer)
    → IsReady source
    → IsReady target
    → (b : ByteBuffer) × (take_over source target ≡ some b) × IsCopied source target b
unfolding toggle_block_recycle take_over
take_over-IsCopied source target v w =
    let (s, returns, joined) =
      write-IsAppended target.internal_buffer (contents source.internal_buffer) w in
    (
      _,
      rw (taken source v, returns, take_over) refl,
      record {
        valid = toggle-IsValid source.internal_buffer.enable_block_recycle s joined.valid;
        joined = joined.appended;
        next = unread-write (contents source.internal_buffer) w joined;
        order = refl;
      },
    )

-- On a packet with valid data and a valid buffer `setData` succeeds, and `getData` then returns a valid
-- buffer with the byte order of the given one that holds the bytes of the packet's data before,
-- followed by those of the given buffer, all of them still to be read.
pub get_data-set_data :
    (d : ByteBuffer) (p : ZincPacket)
    → IsReady d
    → IsReady p.data_
    → (q : ZincPacket) × (c : ByteBuffer) × (set_data d p ≡ some q)
      × (get_data q ≡ some c)
      × IsReady c
      × (get_bytes c ≡ get_bytes p.data_ ++ get_bytes d)
      × (unread c ≡ get_bytes p.data_ ++ get_bytes d)
      × (c.is_big_endian ≡ d.is_big_endian)
unfolding get_data empty Buffer.init set_data
get_data-set_data d p v w =
    let (b, taken_over, first) = take_over-IsCopied d p.data_ v w in
    let (c, copied, second) = take_over-IsCopied b (empty true) first.valid (empty-IsReady true) in
    let bytes = first.joined ∙ sym (ap₂ ◌++◌ (bytes-contents p.data_ w) (bytes-contents d v)) in
    (
      record p { data_ = b },
      c,
      rw (taken_over, set_data) refl,
      copied,
      second.valid,
      bytes-contents c second.valid ∙ (second.joined ∙ bytes),
      second.next ∙ bytes,
      second.order ∙ first.order,
    )

-- A packet with this number whose data is these bytes, all of them still to be read.
pub record Holds (id : ℕ) (bytes : List ℕ) (p : ZincPacket) : Type 0 where
  pub numbered : p.id ≡ id
  pub valid : IsReady p.data_
  pub held : get_bytes p.data_ ≡ bytes
  pub all_unread : unread p.data_ ≡ bytes

-- A new packet made of a valid buffer holds the buffer's bytes.
pub of_data-Holds :
    (id : ℕ) (d : ByteBuffer)
    → IsReady d
    → (q : ZincPacket) × (of_data id d ≡ some q) × Holds id (get_bytes d) q
unfolding of_data set_data new_packet empty Buffer.init
of_data-Holds id d v =
    let (b, taken_over, copied) = take_over-IsCopied d (empty true) v (empty-IsReady true) in
    let bytes = sym (bytes-contents d v) in
    (
      record { id = id; data_ = b },
      rw (taken_over, of_data, set_data) refl,
      record {
        numbered = refl;
        valid = copied.valid;
        held = bytes-contents b copied.valid ∙ (copied.joined ∙ bytes);
        all_unread = copied.next ∙ bytes;
      },
    )

-- The copy that a packet gives of its data.
pub get_data_lem :
    (p : ZincPacket)
    → IsReady p.data_
    → (c : ByteBuffer) × (get_data p ≡ some c)
      × (get_bytes c ≡ get_bytes p.data_)
      × (size c ≡ length (get_bytes p.data_))
unfolding get_data empty Buffer.init size Buffer.get_writer
get_data_lem p v =
    let (c, copied, is) = take_over-IsCopied p.data_ (empty true) v (empty-IsReady true) in
    let bytes = bytes-contents c is.valid ∙ (is.joined ∙ sym (bytes-contents p.data_ v)) in
    (
      c,
      copied,
      bytes,
      omega (
        arith,
        length-contents c.internal_buffer is.valid,
        ap length (is.joined ∙ sym (bytes-contents p.data_ v)),
      ),
    )
