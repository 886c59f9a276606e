-- ===== src/Commands/Send/Build.antt =====
-- internal/commands/executor.go: the BUILD commands, which all go through buildDesignation. The last
-- argument of each function is the id that GenerateCommandID gives.
use df_ai.Base.{[], ℕ, ℤ}
use df_ai.Protocol.Wire.{Bytes}
use df_ai.Protocol.Command.Types.{build, command_type_byte}
use df_ai.Protocol.Command.Message.{CommandMessage, zero_command}
use df_ai.Protocol.Command.Jobs.{
  build_orient_any, build_type_by_name, material_class_any, quality_tier_any,
}

unfoldable pub build_designation :
    (x y z : ℤ) (build_type material quality orientation : ℕ) (name : Bytes) → ℕ → CommandMessage
unfolding command_type_byte
build_designation x y z build_type material quality orientation name id = record zero_command {
  command_id = id;
  command_type = command_type_byte build;
  build = record {
    x = x;
    y = y;
    z = z;
    build_type = build_type;
    material = material;
    quality = quality;
    orientation = orientation;
    build_type_name = name;
  };
}

unfoldable pub send_build_command_full :
    (x y z : ℤ) (build_type material quality orientation : ℕ) → ℕ → CommandMessage
unfolding build_designation
send_build_command_full x y z build_type material quality orientation =
    build_designation x y z build_type material quality orientation []

unfoldable pub send_build_command_with_material_and_quality :
    (x y z : ℤ) (build_type material quality : ℕ) → ℕ → CommandMessage
unfolding send_build_command_full
send_build_command_with_material_and_quality x y z build_type material quality =
    send_build_command_full x y z build_type material quality build_orient_any

unfoldable pub send_build_command_with_material :
    (x y z : ℤ) (build_type material : ℕ) → ℕ → CommandMessage
unfolding send_build_command_with_material_and_quality
send_build_command_with_material x y z build_type material =
    send_build_command_with_material_and_quality x y z build_type material quality_tier_any

unfoldable pub send_build_command : (x y z : ℤ) (build_type : ℕ) → ℕ → CommandMessage
unfolding send_build_command_with_material
send_build_command x y z build_type =
    send_build_command_with_material x y z build_type material_class_any

unfoldable pub send_build_command_by_name_full :
    (x y z : ℤ) (name : Bytes) (material quality orientation : ℕ) → ℕ → CommandMessage
unfolding build_designation
send_build_command_by_name_full x y z name material quality orientation =
    build_designation x y z build_type_by_name material quality orientation name

unfoldable pub send_build_command_by_name :
    (x y z : ℤ) (name : Bytes) (material quality : ℕ) → ℕ → CommandMessage
unfolding send_build_command_by_name_full
send_build_command_by_name x y z name material quality =
    send_build_command_by_name_full x y z name material quality build_orient_any
