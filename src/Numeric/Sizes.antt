-- ===== src/Numeric/Sizes.antt =====
-- Reading a number leaves the size of a buffer that does not recycle its blocks.
use zinc.Common.{
  ℕ, ◌+◌, ◌*◌, ◌≡◌, refl, ap, ap₂, sym, ◌∙◌, Bool, false, Option, none, some, take, List,
}
use zinc.Buffer
use zinc.Buffer.{InternalByteBuffer, block_size}
use zinc.Buffer.PastEnd.{ahead, read_past_end}
use zinc.ByteBuffer.{ByteBuffer, ◌>>=◌, size, read_bytes, empty}
use zinc.ByteBuffer.Rules.{IsReady, IsWritten}
use zinc.Numeric.{ulong, read_numeric, read_memory, from_memory, in_order}

-- The state in which a successful step ends.
pub state_eq {ℓ κ} :
    {A : Type ℓ} {S : Type κ} {a v : A} {s t : S}
    → ◌≡◌ {A = Option (A × S)} (some (a, s)) (some (v, t))
    → s ≡ t
state_eq {s = s} p = ap (λ o. elim o [ none ↦ s | some (_, t) ↦ t ]) p

-- A read of any length, and what it leaves as it was.
read_bytes-ahead :
    (n : ℕ) (b : ByteBuffer)
    → IsReady b
    → b.internal_buffer.enable_block_recycle ≡ false
    → (b' : ByteBuffer) × (read_bytes n b ≡ some (take n (ahead b.internal_buffer), b'))
      × (size b' ≡ size b)
unfolding read_bytes size Buffer.get_writer
read_bytes-ahead n b ready off =
    let (after, reads, _, same_block, same_offset) =
      read_past_end b.internal_buffer n ready.sizes ready.read_room off in
    (
      record b { internal_buffer = after },
      rw (reads, read_bytes) refl,
      ap₂ (λ w o. w * block_size + o) same_block same_offset,
    )

pub size-read_ulong :
    (b b' : ByteBuffer) (v : ℕ)
    → IsReady b
    → b.internal_buffer.enable_block_recycle ≡ false
    → read_numeric ulong b ≡ some (v, b')
    → size b' ≡ size b
unfolding read_numeric read_memory
size-read_ulong b b' v ready off returns =
    let (after, reads, same) = read_bytes-ahead 8 b ready off in
    let value = from_memory (in_order after.is_big_endian (take 8 (ahead b.internal_buffer))) in
    ap size (state_eq {v = value} (sym returns ∙ rw (reads, ◌>>=◌) refl)) ∙ same

pub fresh_off :
    (e : Bool) (bytes : List ℕ) {outcome : Option (Unit {0} × ByteBuffer)}
    → (w : IsWritten (empty e) bytes outcome) → w.after.internal_buffer.enable_block_recycle ≡ false
unfolding empty Buffer.init
fresh_off e bytes w = w.joined.same_recycle
