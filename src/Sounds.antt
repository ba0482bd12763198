-- ===== src/Sounds.antt =====
-- `SoundEvent` of inc/type/SoundEvent.h and src/type/SoundEvent.cpp, and its functions in
-- src/type/ByteBuffer.cpp. A `float` is its bit pattern.
pub mod Coding
use zinc.Common.{ℕ, Bool, true, false, not, Option, none, some, ◌==◌, if◌then◌else◌, ◌&&◌}
use zinc.ByteBuffer.{ByteBuffer, Action, pure, ◌>>=◌, ◌>>◌, write_byte, read_byte}
use zinc.Numeric.{float, write_numeric, read_numeric}
use zinc.Text.{Identifier, write_identifier, read_identifier}
use zinc.Arrays.{has_value}

pub record SoundEvent : Type 0 where
  pub identifier : Identifier
  pub fixed_range : Option ℕ

-- `SoundEvent(const Identifier&)`
unfoldable pub of_identifier : Identifier → SoundEvent
of_identifier identifier = record { identifier = identifier; fixed_range = none }

unfoldable pub has_fixed_range : SoundEvent → Bool
has_fixed_range s = has_value s.fixed_range

-- Without a range, 0.
unfoldable pub get_fixed_range : SoundEvent → ℕ
get_fixed_range s = elim s.fixed_range [ none ↦ 0 | some range ↦ range ]

unfoldable pub set_identifier : Identifier → SoundEvent → SoundEvent
set_identifier identifier s = record s { identifier = identifier }

unfoldable pub set_fixed_range : ℕ → SoundEvent → SoundEvent
set_fixed_range fixed_range s = record s { fixed_range = some fixed_range }

unfoldable pub reset_fixed_range : SoundEvent → SoundEvent
reset_fixed_range s = record s { fixed_range = none }

unfoldable pub write_sound_event : SoundEvent → Action (Unit {0})
write_sound_event s = do
  write_identifier s.identifier
  write_byte (if has_fixed_range s then 1 else 0)
  write_numeric float (get_fixed_range s)

-- `if (readByte()) result.setFixedRange(readNumeric<float>());`
unfoldable pub read_range : SoundEvent → Bool → Action SoundEvent
read_range result true = do range ← read_numeric float; pure (set_fixed_range range result)
read_range result false = pure result

unfoldable pub read_sound_event : Action SoundEvent
read_sound_event = do
  identifier ← read_identifier
  flag ← read_byte
  read_range (of_identifier identifier) (not (flag == 0))
