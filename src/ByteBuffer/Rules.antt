-- ===== src/ByteBuffer/Rules.antt =====
-- What an action writes, what it reads back, and the rules by which both follow a `do` block.
use zinc.Common.{ℕ, Bool, Option, some, List, [], ◌++◌, ◌≡◌, refl, ap, sym, ◌∙◌, append-nil}
use zinc.Common.{append_assoc}
use zinc.ByteBuffer.{ByteBuffer, Action, pure, ◌>>=◌, ◌>>◌}
use zinc.Buffer.View.{IsValid, contents}
use zinc.Buffer.View
use mathlib.Core.Path.{subst}
use zinc.Buffer.Writing.{IsAppended, IsAppended-trans, unread-write}

abbrev pub IsReady : ByteBuffer → Type 0
IsReady b = IsValid b.internal_buffer

abbrev pub unread : ByteBuffer → List ℕ
unread b = View.unread b.internal_buffer

-- The run returned, `bytes` joined the buffer, and nothing else changed.
pub record IsWritten (b : ByteBuffer) (bytes : List ℕ) (outcome : Option (Unit {0} × ByteBuffer))
    : Type 0 where
  pub after : ByteBuffer
  pub returns : outcome ≡ some (tt, after)
  pub joined : IsAppended b.internal_buffer bytes after.internal_buffer
  pub same_order : after.is_big_endian ≡ b.is_big_endian

-- The run returned `a`, and left `rest` unread.
pub record IsRead {ℓ} {A : Type ℓ} (b : ByteBuffer) (rest : List ℕ) (a : A)
    (outcome : Option (A × ByteBuffer)) : Type ℓ where
  pub after : ByteBuffer
  pub returns : outcome ≡ some (a, after)
  pub valid : IsReady after
  pub remains : unread after ≡ rest
  pub same_order : after.is_big_endian ≡ b.is_big_endian

-- In byte order `e`, on every valid buffer `m` writes `bytes`.
pub record Writes (e : Bool) (m : Action (Unit {0})) (bytes : List ℕ) : Type 0 where
  pub run : (b : ByteBuffer) → IsReady b → b.is_big_endian ≡ e → IsWritten b bytes (m b)

-- In byte order `e`, where `bytes` are next `m` takes just these and returns `a`.
pub record Reads {ℓ} {A : Type ℓ} (e : Bool) (m : Action A) (bytes : List ℕ) (a : A) : Type ℓ where
  pub run :
      (b : ByteBuffer) (rest : List ℕ)
      → IsReady b
      → b.is_big_endian ≡ e
      → unread b ≡ bytes ++ rest
      → IsRead b rest a (m b)

pub Writes-pure : {e : Bool} → Writes e (pure tt) []
Writes-pure = record {
  run = λ b v o. record {
    after = b;
    returns = refl;
    joined = record {
      valid = v;
      appended = sym (append-nil _);
      same_reader = refl;
      same_recycle = refl;
    };
    same_order = refl;
  };
}

pub Writes-bind :
    {e : Bool} {m k : Action (Unit {0})} {xs ys : List ℕ}
    → Writes e m xs
    → Writes e k ys
    → Writes e (m >> k) (xs ++ ys)
Writes-bind {e} {m} {k} {xs} {ys} p q = record {
  run = λ b v o.
      let one = p.run b v o in
      let two = q.run one.after one.joined.valid (one.same_order ∙ o) in
      record {
        after = two.after;
        returns = rw (one.returns, ◌>>=◌) two.returns;
        joined = IsAppended-trans xs ys one.joined two.joined;
        same_order = two.same_order ∙ one.same_order;
      };
}

pub Reads-pure {ℓ} : {A : Type ℓ} {e : Bool} (a : A) → Reads e (pure a) [] a
Reads-pure a = record {
  run = λ b rest v o u. record {
    after = b;
    returns = refl;
    valid = v;
    remains = u;
    same_order = refl;
  };
}

module _ {ℓ κ} {A : Type ℓ} {B : Type κ} where
  pub Reads-bind :
      {e : Bool} {m : Action A} (f : A → Action B) {xs ys : List ℕ} {a : A} {c : B}
      → Reads e m xs a
      → Reads e (f a) ys c
      → Reads e (m >>= f) (xs ++ ys) c
  Reads-bind {e} {m} f {xs} {ys} {a} {c} p q = record {
    run = λ b rest v o u.
        let one = p.run b (ys ++ rest) v o (u ∙ append_assoc xs ys rest) in
        let two = q.run one.after rest one.valid (one.same_order ∙ o) one.remains in
        record {
          after = two.after;
          returns = rw (one.returns, ◌>>=◌) two.returns;
          valid = two.valid;
          remains = two.remains;
          same_order = two.same_order ∙ one.same_order;
        };
  }

-- Writing `a` by `w` and reading by `r` go through the same bytes.
pub record Codes {ℓ} {A : Type ℓ} (e : Bool) (w : A → Action (Unit {0})) (r : Action A) (a : A)
    : Type ℓ where
  pub bytes : List ℕ
  pub writes : Writes e (w a) bytes
  pub reads : Reads e r bytes a

-- `w` and then `r` return `a` and leave nothing unread.
abbrev pub RoundTrips {ℓ} :
    {A : Type ℓ} → (A → Action (Unit {0})) → Action A → A → ByteBuffer → Type ℓ
RoundTrips w r a b =
    (b₁ : ByteBuffer) × (b₂ : ByteBuffer) × (w a b ≡ some (tt, b₁))
    × (r b₁ ≡ some (a, b₂))
    × (unread b₂ ≡ [])

pub round_trip {ℓ} :
    {A : Type ℓ} {w : A → Action (Unit {0})} {r : Action A} {a : A} (b : ByteBuffer)
    → IsReady b
    → unread b ≡ []
    → Codes b.is_big_endian w r a
    → RoundTrips w r a b
round_trip b v none_left c =
    let one = c.writes.run b v refl in
    let next =
      unread-write c.bytes v one.joined
      ∙ (ap (λ t. t ++ c.bytes) none_left ∙ sym (append-nil c.bytes)) in
    let two = c.reads.run one.after [] one.joined.valid one.same_order next in
    (one.after, two.after, one.returns, two.returns, two.remains)

-- The bytes written, apart from the rule by which they were found.
pub Writes-eq :
    {e : Bool} {m : Action (Unit {0})} {xs ys : List ℕ} → xs ≡ ys → Writes e m xs → Writes e m ys
Writes-eq {e} {m} p w = subst (λ t. Writes e m t) p w

pub Reads-eq {ℓ} :
    {A : Type ℓ} {e : Bool} {m : Action A} {xs ys : List ℕ} {a : A}
    → xs ≡ ys
    → Reads e m xs a
    → Reads e m ys a
Reads-eq {e} {m} {a} p r = subst (λ t. Reads e m t a) p r

-- The last step of a `do` block computes the result.
pub Reads-map {ℓ κ} :
    {A : Type ℓ} {B : Type κ} {e : Bool} {m : Action A} {xs : List ℕ} {a : A} (h : A → B)
    → Reads e m xs a
    → Reads e (m >>= λ x. pure (h x)) xs (h a)
Reads-map {xs} {a} h p =
    Reads-eq (append-nil xs) (Reads-bind (λ x. pure (h x)) p (Reads-pure (h a)))

pub Reads-result {ℓ} :
    {A : Type ℓ} {e : Bool} {m : Action A} {xs : List ℕ} {a c : A}
    → a ≡ c
    → Reads e m xs a
    → Reads e m xs c
Reads-result {e} {m} {xs} p r = subst (λ t. Reads e m xs t) p r

pub Reads-action {ℓ} :
    {A : Type ℓ} {e : Bool} {m k : Action A} {xs : List ℕ} {a : A}
    → m ≡ k
    → Reads e k xs a
    → Reads e m xs a
Reads-action {e} {xs} {a} p r = subst (λ t. Reads e t xs a) (sym p) r

-- `m` and then `r` return `a` and leave `rest` unread.
abbrev pub Leaves {ℓ} :
    {A : Type ℓ} → Action (Unit {0}) → Action A → A → List ℕ → ByteBuffer → Type ℓ
Leaves m r a rest b =
    (b₁ : ByteBuffer) × (b₂ : ByteBuffer) × (m b ≡ some (tt, b₁))
    × (r b₁ ≡ some (a, b₂))
    × (unread b₂ ≡ rest)

pub leaves {ℓ} :
    {A : Type ℓ} {m : Action (Unit {0})} {r : Action A} {a : A} (xs rest : List ℕ) (b : ByteBuffer)
    → IsReady b
    → unread b ≡ []
    → Writes b.is_big_endian m (xs ++ rest)
    → Reads b.is_big_endian r xs a
    → Leaves m r a rest b
leaves xs rest b v none_left writes reads =
    let one = writes.run b v refl in
    let next = unread-write (xs ++ rest) v one.joined ∙ ap (λ t. t ++ (xs ++ rest)) none_left in
    let two = reads.run one.after rest one.joined.valid one.same_order next in
    (one.after, two.after, one.returns, two.returns, two.remains)
