-- ===== src/Teleport.antt =====
-- `TeleportFlags` of inc/type/TeleportFlags.h and src/type/TeleportFlags.cpp: nine flags that a
-- packet carries as one `int`, and their functions in src/type/ByteBuffer.cpp.
pub mod Flags
use zinc.Common.{ℕ, ◌+◌, ◌*◌, ◌-◌, ◌^◌, bit_and, Bool, true, false, not, ◌==◌, if◌then◌else◌}
use zinc.ByteBuffer.{ByteBuffer, Action, pure, ◌>>=◌}
use zinc.Numeric.{int, write_numeric, read_numeric}

pub record TeleportFlags : Type 0 where
  pub rel_x : Bool
  pub rel_y : Bool
  pub rel_z : Bool
  pub rel_yaw : Bool
  pub rel_pitch : Bool
  pub rel_velocity_x : Bool
  pub rel_velocity_y : Bool
  pub rel_velocity_z : Bool
  pub rot_velocity : Bool

-- `if (flag) result += value;`
unfoldable pub add_if : Bool → ℕ → ℕ → ℕ
add_if flag value result = if flag then result + value else result

unfoldable pub encode : TeleportFlags → ℕ
encode f =
    let result = add_if f.rel_x 1 0 in
    let result = add_if f.rel_y 2 result in
    let result = add_if f.rel_z 4 result in
    let result = add_if f.rel_yaw 8 result in
    let result = add_if f.rel_pitch 16 result in
    let result = add_if f.rel_velocity_x 32 result in
    let result = add_if f.rel_velocity_y 64 result in
    let result = add_if f.rel_velocity_z 128 result in add_if f.rot_velocity 256 result

-- `bool(bitset_int & mask)`
abbrev pub test : ℕ → ℕ → Bool
test bitset_int mask = not (bit_and bitset_int mask == 0)

-- `TeleportFlags(const int&)`
unfoldable pub of_int : ℕ → TeleportFlags
of_int bitset_int = record {
  rel_x = test bitset_int 1;
  rel_y = test bitset_int 2;
  rel_z = test bitset_int 4;
  rel_yaw = test bitset_int 8;
  rel_pitch = test bitset_int 16;
  rel_velocity_x = test bitset_int 32;
  rel_velocity_y = test bitset_int 64;
  rel_velocity_z = test bitset_int 128;
  rot_velocity = test bitset_int 256;
}

unfoldable pub set_rel_x : Bool → TeleportFlags → TeleportFlags
set_rel_x rel_x f = record f { rel_x = rel_x }

unfoldable pub set_rel_y : Bool → TeleportFlags → TeleportFlags
set_rel_y rel_y f = record f { rel_y = rel_y }

unfoldable pub set_rel_z : Bool → TeleportFlags → TeleportFlags
set_rel_z rel_z f = record f { rel_z = rel_z }

unfoldable pub set_rel_yaw : Bool → TeleportFlags → TeleportFlags
set_rel_yaw rel_yaw f = record f { rel_yaw = rel_yaw }

unfoldable pub set_rel_pitch : Bool → TeleportFlags → TeleportFlags
set_rel_pitch rel_pitch f = record f { rel_pitch = rel_pitch }

unfoldable pub set_rel_velocity_x : Bool → TeleportFlags → TeleportFlags
set_rel_velocity_x rel_velocity_x f = record f { rel_velocity_x = rel_velocity_x }

unfoldable pub set_rel_velocity_y : Bool → TeleportFlags → TeleportFlags
set_rel_velocity_y rel_velocity_y f = record f { rel_velocity_y = rel_velocity_y }

unfoldable pub set_rel_velocity_z : Bool → TeleportFlags → TeleportFlags
set_rel_velocity_z rel_velocity_z f = record f { rel_velocity_z = rel_velocity_z }

unfoldable pub set_rot_velocity : Bool → TeleportFlags → TeleportFlags
set_rot_velocity rot_velocity f = record f { rot_velocity = rot_velocity }

unfoldable pub flip_rel_x : TeleportFlags → TeleportFlags
flip_rel_x f = record f { rel_x = not f.rel_x }

unfoldable pub flip_rel_y : TeleportFlags → TeleportFlags
flip_rel_y f = record f { rel_y = not f.rel_y }

unfoldable pub flip_rel_z : TeleportFlags → TeleportFlags
flip_rel_z f = record f { rel_z = not f.rel_z }

unfoldable pub flip_rel_yaw : TeleportFlags → TeleportFlags
flip_rel_yaw f = record f { rel_yaw = not f.rel_yaw }

unfoldable pub flip_rel_pitch : TeleportFlags → TeleportFlags
flip_rel_pitch f = record f { rel_pitch = not f.rel_pitch }

unfoldable pub flip_rel_velocity_x : TeleportFlags → TeleportFlags
flip_rel_velocity_x f = record f { rel_velocity_x = not f.rel_velocity_x }

unfoldable pub flip_rel_velocity_y : TeleportFlags → TeleportFlags
flip_rel_velocity_y f = record f { rel_velocity_y = not f.rel_velocity_y }

unfoldable pub flip_rel_velocity_z : TeleportFlags → TeleportFlags
flip_rel_velocity_z f = record f { rel_velocity_z = not f.rel_velocity_z }

unfoldable pub flip_rot_velocity : TeleportFlags → TeleportFlags
flip_rot_velocity f = record f { rot_velocity = not f.rot_velocity }

-- `operator==`
unfoldable pub flags_eq : TeleportFlags → TeleportFlags → Bool
flags_eq f g = encode f == encode g

unfoldable pub write_teleport_flags : TeleportFlags → Action (Unit {0})
write_teleport_flags f = write_numeric int (encode f)

unfoldable pub read_teleport_flags : Action TeleportFlags
read_teleport_flags = do bitset_int ← read_numeric int; pure (of_int bitset_int)
