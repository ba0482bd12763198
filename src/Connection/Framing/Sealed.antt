-- ===== src/Connection/Framing/Sealed.antt =====
-- A frame as it is sent, encrypted or not, and what the other end has of it after decryption.
use zinc.Common.{
  ℕ, ◌≡◌, refl, ap, sym, subst, ◌∙◌, true, false, Option, some, List, [], ◌++◌, append-nil, length,
  ◌⊎◌, inl, inr, ◌%◌, ◌^◌, arith,
}
use zinc.ByteBuffer.{ByteBuffer, empty, size, get_bytes}
use zinc.ByteBuffer.Rules.{IsReady, IsWritten, unread}
use zinc.Buffer.Writing.{unread-write}
use zinc.ByteBuffer.Raw.{
  write_bytes-Writes, empty-IsReady, unread-empty, size-fresh, get_bytes-fresh, to_bytes-Writes,
}
use zinc.Arrays.Sequences.{bytes-Writes, bytes-Reads}
use zinc.Wrappers.{Cipher, IsCipher, AesWrapper, is_key_size, process_cfb8}
use zinc.Text.Strings.{IsLength}
use zinc.Connection.{ZincConnection, encrypt_frame, decrypt_input}

abbrev pub IsKeyed : AesWrapper → Type 0
IsKeyed a =
    (a.is_key_set ≡ true)
    × (a.is_iv_set ≡ true)
    × (is_key_size (length a.key) ≡ true)
    × (length a.iv ≡ 16)

-- Neither end encrypts, or both do and the one decrypts where the other encrypts.
abbrev pub IsPaired : ZincConnection → ZincConnection → Type 0
IsPaired c d =
    ((c.is_encrypted ≡ false) × (d.is_encrypted ≡ false))
    ⊎ ((c.is_encrypted ≡ true)
        × (d.is_encrypted ≡ true)
        × (c.encrypt ≡ d.decrypt)
        × IsKeyed c.encrypt)

-- Of the sender only the state of its cipher has moved.
abbrev pub IsSameSender : ZincConnection → ZincConnection → Type 0
IsSameSender c sender = sender ≡ record c { encrypt = sender.encrypt }

-- Of the receiver only the state of its cipher has moved, and `shouldContinue` is cleared.
abbrev pub IsSameReceiver : ZincConnection → ZincConnection → Type 0
IsSameReceiver d receiver =
    receiver ≡ record d { decrypt = receiver.decrypt; should_continue = false }

-- More bytes may wait behind the frame only where they are not decrypted with it.
abbrev pub CanFollow : ZincConnection → List ℕ → Type 0
CanFollow c rest = (c.is_encrypted ≡ false) ⊎ (rest ≡ [])

-- A new buffer that these bytes were written to.
pub record IsFilled (bytes : List ℕ) (b : ByteBuffer) : Type 0 where
  pub ready : IsReady b
  pub order : b.is_big_endian ≡ true
  pub all_unread : unread b ≡ bytes
  pub sized : size b ≡ length bytes
  pub held : get_bytes b ≡ bytes

pub filled :
    (bytes : List ℕ) {outcome : Option (Unit {0} × ByteBuffer)}
    → (w : IsWritten (empty true) bytes outcome) → IsFilled bytes w.after
unfolding empty
filled bytes w = record {
  ready = w.joined.valid;
  order = w.same_order;
  all_unread =
      unread-write bytes (empty-IsReady true) w.joined ∙ ap (λ t. t ++ bytes) (unread-empty true);
  sized = size-fresh true bytes w;
  held = get_bytes-fresh true bytes w;
}

-- The frame as it is sent, and what the other end has of it after decryption.
pub record IsSealed (k : Cipher) (c d : ZincConnection) (frame : ByteBuffer) (bytes rest : List ℕ)
    : Type 0 where
  pub sent : List ℕ
  pub sender : ZincConnection
  pub receiver : ZincConnection
  pub buffer : ByteBuffer
  pub encrypted : encrypt_frame k frame c ≡ some (sent, sender)
  pub decrypted : decrypt_input k (sent ++ rest) d ≡ some (buffer, receiver)
  pub same_length : length sent ≡ length bytes
  pub opened : IsFilled (bytes ++ rest) buffer
  pub sender_keeps : IsSameSender c sender
  pub receiver_keeps : receiver ≡ record d { decrypt = receiver.decrypt }
  pub paired : IsPaired sender receiver

module _ (k : Cipher) where
  plain-IsSealed :
      (c d : ZincConnection) (frame : ByteBuffer) (bytes rest : List ℕ)
      → c.is_encrypted ≡ false
      → d.is_encrypted ≡ false
      → IsFilled bytes frame
      → IsSealed k c d frame bytes rest
  unfolding encrypt_frame decrypt_input empty
  plain-IsSealed c d frame bytes rest p q f =
      let one =
        (write_bytes-Writes {e = true} (bytes ++ rest)).run (empty true) (empty-IsReady true)
          refl in
      let copy = filled (bytes ++ rest) one in
      record {
        sent = bytes;
        sender = c;
        receiver = d;
        buffer = one.after;
        encrypted = simp (p, f.held, to_bytes-Writes (write_bytes-Writes {e = true} bytes));
        decrypted = rw (one.returns, decrypt_input) (simp (q, copy.held, one.returns));
        same_length = refl;
        opened = copy;
        sender_keeps = refl;
        receiver_keeps = refl;
        paired = inl (p, q);
      }

  module _ (laws : IsCipher k) where
    -- What one end makes of bytes, and the other end of that.
    ciphered :
        (a : AesWrapper) (plain : List ℕ)
        → IsKeyed a
        → IsLength (length plain)
        → (sent : List ℕ) × (a' : AesWrapper) × (process_cfb8 k.encrypt plain a ≡ (sent, a'))
          × (process_cfb8 k.decrypt sent a ≡ (plain, a'))
          × (length sent ≡ length plain)
          × IsKeyed a'
    unfolding process_cfb8
    ciphered a plain (key_set, iv_set, key_size, iv_size) short =
        let (sent, iv', done, next_size) = laws.encrypts a.key a.iv plain key_size iv_size short in
        let same_length = laws.keeps_length a.key a.iv plain sent iv' done in
        let counted : length plain % 2 ^ 32 ≡ length plain = omega arith in
        let counted_sent : length sent % 2 ^ 32 ≡ length sent = omega (arith, same_length) in
        (
          sent,
          record a { iv = iv' },
          simp (key_set, iv_set, key_size, counted, done),
          simp (
            key_set,
            iv_set,
            key_size,
            counted_sent,
            laws.decrypts a.key a.iv plain sent iv' done,
          ),
          same_length,
          (key_set, iv_set, key_size, next_size),
        )

    ciphered-IsSealed :
        (c d : ZincConnection) (frame : ByteBuffer) (bytes : List ℕ)
        → c.is_encrypted ≡ true
        → d.is_encrypted ≡ true
        → c.encrypt ≡ d.decrypt
        → IsKeyed c.encrypt
        → IsLength (length bytes)
        → IsFilled bytes frame
        → IsSealed k c d frame bytes []
    unfolding encrypt_frame decrypt_input empty
    ciphered-IsSealed c d frame bytes p q same keyed short f =
        let (sent, a', to_sent, to_plain, len, keyed') = ciphered c.encrypt bytes keyed short in
        let taken =
          (bytes-Reads {e = true} bytes).run frame [] f.ready f.order
            (f.all_unread ∙ sym (append-nil bytes)) in
        let one = (write_bytes-Writes {e = true} sent).run (empty true) (empty-IsReady true) refl in
        let copy = filled sent one in
        let two =
          (bytes-Reads {e = true} sent).run one.after [] copy.ready copy.order
            (copy.all_unread ∙ sym (append-nil sent)) in
        let three = (bytes-Writes {e = true} bytes).run (empty true) (empty-IsReady true) refl in
        record {
          sent = sent;
          sender = record c { encrypt = a' };
          receiver = record d { decrypt = a' };
          buffer = three.after;
          encrypted =
              simp (
                p,
                f.sized,
                taken.returns,
                to_sent,
                to_bytes-Writes (bytes-Writes {e = true} sent),
              );
          decrypted =
              rw (append-nil sent, one.returns, decrypt_input)
                (simp (q, copy.sized, two.returns, sym same, to_plain, three.returns));
          same_length = len;
          opened =
              subst (λ t. IsFilled t three.after) (sym (append-nil bytes)) (filled bytes three);
          sender_keeps = refl;
          receiver_keeps = refl;
          paired = inr (p, q, refl, keyed');
        }

    pub sealed :
        (c d : ZincConnection) (frame : ByteBuffer) (bytes rest : List ℕ)
        → IsPaired c d
        → CanFollow c rest
        → IsLength (length bytes)
        → IsFilled bytes frame
        → IsSealed k c d frame bytes rest
    sealed c d frame bytes rest (inl (p, q)) follows short f =
        plain-IsSealed c d frame bytes rest p q f
    sealed c d frame bytes rest (inr (p, q, same, keyed)) (inl plain) short f = absurd cc
    sealed c d frame bytes rest (inr (p, q, same, keyed)) (inr none_left) short f =
        subst (λ t. IsSealed k c d frame bytes t) (sym none_left)
          (ciphered-IsSealed c d frame bytes p q same keyed short f)
