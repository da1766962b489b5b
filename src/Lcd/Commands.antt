-- ===== src/Lcd/Commands.antt =====
-- Applications/IntegratedCircuits/Lcd/Bridgetek/Bridgetek81xTypes.hpp, `DisplayListCommands`: the
-- commands of the display list with their fields.
use abstraction_layer.Prelude.{ℕ, ◌<◌}

-- A command with its fields, as in the programming guide.
pub data Command : Type 0 where
  alpha_test_function : ℕ → ℕ → Command
  begin_graphics_primitive : ℕ → Command
  bitmap_extended_format : ℕ → Command
  bitmap_handle : ℕ → Command
  bitmap_layout : ℕ → ℕ → ℕ → Command
  bitmap_linestride_and_height : ℕ → ℕ → Command
  bitmap_size : ℕ → ℕ → ℕ → ℕ → ℕ → Command
  bitmap_extended_width_and_height : ℕ → ℕ → Command
  bitmap_swizzle : ℕ → ℕ → ℕ → ℕ → Command
  bitmap_transform_a : ℕ → ℕ → Command
  bitmap_transform_b : ℕ → ℕ → Command
  bitmap_transform_c : ℕ → Command
  bitmap_transform_d : ℕ → ℕ → Command
  bitmap_transform_e : ℕ → ℕ → Command
  bitmap_transform_f : ℕ → Command
  blend : ℕ → ℕ → Command
  call : ℕ → Command
  cell_number_for_vertex2f : ℕ → Command
  clear : ℕ → ℕ → ℕ → Command
  clear_color_a : ℕ → Command
  clear_color_rgb : ℕ → Command
  clear_stencil : ℕ → Command
  clear_tag : ℕ → Command
  color_a : ℕ → Command
  color_mask : ℕ → ℕ → ℕ → ℕ → Command
  color_rgb : ℕ → Command
  display : Command
  end_graphics_primitive : Command
  int_frr : Command
  jump : ℕ → Command
  line_width : ℕ → Command
  macro : ℕ → Command
  nop : Command
  palette_source : ℕ → Command
  point_size : ℕ → Command
  restore_context : Command
  return_from_call : Command
  save_context : Command
  scissor_size : ℕ → ℕ → Command
  scissor_xy : ℕ → ℕ → Command
  stencil_func : ℕ → ℕ → ℕ → Command
  stencil_mask : ℕ → Command
  stencil_op : ℕ → ℕ → Command
  graphics_object_tag : ℕ → Command
  graphics_object_tag_mask : ℕ → Command
  vertex2_f : ℕ → ℕ → Command
  vertex2_ii : ℕ → ℕ → ℕ → ℕ → Command
  vertex_format : ℕ → Command
  vertex_translate_x : ℕ → Command
  vertex_translate_y : ℕ → Command

-- The fields are not wider than their places in the word.
abbrev pub Fits : Command → Type 0
Fits (alpha_test_function function reference_value) = (function < 8) × (reference_value < 256)
Fits (begin_graphics_primitive primitive) = (primitive < 16)
Fits (bitmap_extended_format format) = (format < 65536)
Fits (bitmap_handle handle) = (handle < 32)
Fits (bitmap_layout format line_stride height) =
    (format < 32) × (line_stride < 1024) × (height < 512)
Fits (bitmap_linestride_and_height line_stride height) = (line_stride < 4) × (height < 4)
Fits (bitmap_size filter wrap_x wrap_y width height) =
    (filter < 2) × (wrap_x < 2) × (wrap_y < 2) × (width < 512) × (height < 512)
Fits (bitmap_extended_width_and_height width height) = (width < 4) × (height < 4)
Fits (bitmap_swizzle red green blue alpha) = (red < 8) × (green < 8) × (blue < 8) × (alpha < 8)
Fits (bitmap_transform_a precision component) = (precision < 2) × (component < 131072)
Fits (bitmap_transform_b precision component) = (precision < 2) × (component < 131072)
Fits (bitmap_transform_c component) = (component < 16777216)
Fits (bitmap_transform_d precision component) = (precision < 2) × (component < 131072)
Fits (bitmap_transform_e precision component) = (precision < 2) × (component < 131072)
Fits (bitmap_transform_f component) = (component < 16777216)
Fits (blend source_blending_factor destination_blending_factor) =
    (source_blending_factor < 8) × (destination_blending_factor < 8)
Fits (call dest) = (dest < 65536)
Fits (cell_number_for_vertex2f cell) = (cell < 128)
Fits (clear clear_colour_buffer clear_stencil_buffer clear_tag_buffer) =
    (clear_colour_buffer < 2) × (clear_stencil_buffer < 2) × (clear_tag_buffer < 2)
Fits (clear_color_a alpha) = (alpha < 256)
Fits (clear_color_rgb colour) = (colour < 16777216)
Fits (clear_stencil s) = (s < 256)
Fits (clear_tag s) = (s < 256)
Fits (color_a alpha) = (alpha < 256)
Fits (color_mask r g b a) = (r < 2) × (g < 2) × (b < 2) × (a < 2)
Fits (color_rgb colour) = (colour < 16777216)
Fits display = Unit {0}
Fits end_graphics_primitive = Unit {0}
Fits int_frr = Unit {0}
Fits (jump dest) = (dest < 65536)
Fits (line_width width) = (width < 4096)
Fits (macro m) = (m < 2)
Fits nop = Unit {0}
Fits (palette_source addr) = (addr < 4194304)
Fits (point_size size) = (size < 8192)
Fits restore_context = Unit {0}
Fits return_from_call = Unit {0}
Fits save_context = Unit {0}
Fits (scissor_size width height) = (width < 4096) × (height < 4096)
Fits (scissor_xy x y) = (x < 2048) × (y < 2048)
Fits (stencil_func func ref mask) = (func < 8) × (ref < 256) × (mask < 256)
Fits (stencil_mask mask) = (mask < 256)
Fits (stencil_op s_fail s_pass) = (s_fail < 8) × (s_pass < 8)
Fits (graphics_object_tag s) = (s < 256)
Fits (graphics_object_tag_mask mask) = (mask < 2)
Fits (vertex2_f x y) = (x < 32768) × (y < 32768)
Fits (vertex2_ii x y handle cell) = (x < 512) × (y < 512) × (handle < 32) × (cell < 128)
Fits (vertex_format frac) = (frac < 8)
Fits (vertex_translate_x x) = (x < 131072)
Fits (vertex_translate_y y) = (y < 131072)
