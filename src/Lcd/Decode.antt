-- ===== src/Lcd/Decode.antt =====
-- Applications/IntegratedCircuits/Lcd/Bridgetek/Bridgetek81xTypes.hpp, `DisplayListCommands`: the word
-- of a command, and a word read as the chip reads it, by the opcode in its highest bits.
pub mod RoundTrip
use abstraction_layer.Prelude.{ℕ, ◌/◌, ◌%◌, ◌^◌, Option, some, none, ◌==◌, if◌then◌else◌}
use abstraction_layer.Lcd.Display
use abstraction_layer.Lcd.Commands.{
  Command, alpha_test_function, begin_graphics_primitive, bitmap_extended_format, bitmap_handle,
  bitmap_layout, bitmap_linestride_and_height, bitmap_size, bitmap_extended_width_and_height,
  bitmap_swizzle, bitmap_transform_a, bitmap_transform_b, bitmap_transform_c, bitmap_transform_d,
  bitmap_transform_e, bitmap_transform_f, blend, call, cell_number_for_vertex2f, clear,
  clear_color_a, clear_color_rgb, clear_stencil, clear_tag, color_a, color_mask, color_rgb, display,
  end_graphics_primitive, int_frr, jump, line_width, macro, nop, palette_source, point_size,
  restore_context, return_from_call, save_context, scissor_size, scissor_xy, stencil_func,
  stencil_mask, stencil_op, graphics_object_tag, graphics_object_tag_mask, vertex2_f, vertex2_ii,
  vertex_format, vertex_translate_x, vertex_translate_y,
}

unfoldable pub encode : Command → ℕ
unfolding Display.alpha_test_function Display.begin_graphics_primitive
    Display.bitmap_extended_format Display.bitmap_handle Display.bitmap_layout
    Display.bitmap_linestride_and_height Display.bitmap_size
    Display.bitmap_extended_width_and_height Display.bitmap_swizzle Display.bitmap_transform_a
    Display.bitmap_transform_b Display.bitmap_transform_c Display.bitmap_transform_d
    Display.bitmap_transform_e Display.bitmap_transform_f Display.blend Display.call
    Display.cell_number_for_vertex2f Display.clear Display.clear_color_a Display.clear_color_rgb
    Display.clear_stencil Display.clear_tag Display.color_a Display.color_mask Display.color_rgb
    Display.display Display.end_graphics_primitive Display.int_frr Display.jump Display.line_width
    Display.macro Display.nop Display.palette_source Display.point_size Display.restore_context
    Display.return_from_call Display.save_context Display.scissor_size Display.scissor_xy
    Display.stencil_func Display.stencil_mask Display.stencil_op Display.graphics_object_tag
    Display.graphics_object_tag_mask Display.vertex2_f Display.vertex2_ii Display.vertex_format
    Display.vertex_translate_x Display.vertex_translate_y
encode (alpha_test_function function reference_value) =
    Display.alpha_test_function function reference_value
encode (begin_graphics_primitive primitive) = Display.begin_graphics_primitive primitive
encode (bitmap_extended_format format) = Display.bitmap_extended_format format
encode (bitmap_handle handle) = Display.bitmap_handle handle
encode (bitmap_layout format line_stride height) = Display.bitmap_layout format line_stride height
encode (bitmap_linestride_and_height line_stride height) =
    Display.bitmap_linestride_and_height line_stride height
encode (bitmap_size filter wrap_x wrap_y width height) =
    Display.bitmap_size filter wrap_x wrap_y width height
encode (bitmap_extended_width_and_height width height) =
    Display.bitmap_extended_width_and_height width height
encode (bitmap_swizzle red green blue alpha) = Display.bitmap_swizzle red green blue alpha
encode (bitmap_transform_a precision component) = Display.bitmap_transform_a precision component
encode (bitmap_transform_b precision component) = Display.bitmap_transform_b precision component
encode (bitmap_transform_c component) = Display.bitmap_transform_c component
encode (bitmap_transform_d precision component) = Display.bitmap_transform_d precision component
encode (bitmap_transform_e precision component) = Display.bitmap_transform_e precision component
encode (bitmap_transform_f component) = Display.bitmap_transform_f component
encode (blend source_blending_factor destination_blending_factor) =
    Display.blend source_blending_factor destination_blending_factor
encode (call dest) = Display.call dest
encode (cell_number_for_vertex2f cell) = Display.cell_number_for_vertex2f cell
encode (clear clear_colour_buffer clear_stencil_buffer clear_tag_buffer) =
    Display.clear clear_colour_buffer clear_stencil_buffer clear_tag_buffer
encode (clear_color_a alpha) = Display.clear_color_a alpha
encode (clear_color_rgb colour) = Display.clear_color_rgb colour
encode (clear_stencil s) = Display.clear_stencil s
encode (clear_tag s) = Display.clear_tag s
encode (color_a alpha) = Display.color_a alpha
encode (color_mask r g b a) = Display.color_mask r g b a
encode (color_rgb colour) = Display.color_rgb colour
encode display = Display.display
encode end_graphics_primitive = Display.end_graphics_primitive
encode int_frr = Display.int_frr
encode (jump dest) = Display.jump dest
encode (line_width width) = Display.line_width width
encode (macro m) = Display.macro m
encode nop = Display.nop
encode (palette_source addr) = Display.palette_source addr
encode (point_size size) = Display.point_size size
encode restore_context = Display.restore_context
encode return_from_call = Display.return_from_call
encode save_context = Display.save_context
encode (scissor_size width height) = Display.scissor_size width height
encode (scissor_xy x y) = Display.scissor_xy x y
encode (stencil_func func ref mask) = Display.stencil_func func ref mask
encode (stencil_mask mask) = Display.stencil_mask mask
encode (stencil_op s_fail s_pass) = Display.stencil_op s_fail s_pass
encode (graphics_object_tag s) = Display.graphics_object_tag s
encode (graphics_object_tag_mask mask) = Display.graphics_object_tag_mask mask
encode (vertex2_f x y) = Display.vertex2_f x y
encode (vertex2_ii x y handle cell) = Display.vertex2_ii x y handle cell
encode (vertex_format frac) = Display.vertex_format frac
encode (vertex_translate_x x) = Display.vertex_translate_x x
encode (vertex_translate_y y) = Display.vertex_translate_y y

unfoldable pub by_opcode : ℕ → ℕ → Option Command
by_opcode opcode w =
    if opcode == 9
    then some (alpha_test_function (w / 2 ^ 8 % 2 ^ 3) (w % 2 ^ 8))
    else if opcode == 31
    then some (begin_graphics_primitive (w % 2 ^ 4))
    else if opcode == 46
    then some (bitmap_extended_format (w % 2 ^ 16))
    else if opcode == 5
    then some (bitmap_handle (w % 2 ^ 5))
    else if opcode == 7
    then some (bitmap_layout (w / 2 ^ 19 % 2 ^ 5) (w / 2 ^ 9 % 2 ^ 10) (w % 2 ^ 9))
    else if opcode == 40
    then some (bitmap_linestride_and_height (w / 2 ^ 2 % 2 ^ 2) (w % 2 ^ 2))
    else if opcode == 8
    then some (
        bitmap_size (w / 2 ^ 20 % 2 ^ 1) (w / 2 ^ 19 % 2 ^ 1) (w / 2 ^ 18 % 2 ^ 1)
          (w / 2 ^ 9 % 2 ^ 9) (w % 2 ^ 9))
    else if opcode == 41
    then some (bitmap_extended_width_and_height (w / 2 ^ 2 % 2 ^ 2) (w % 2 ^ 2))
    else if opcode == 47
    then some
        (bitmap_swizzle (w / 2 ^ 9 % 2 ^ 3) (w / 2 ^ 6 % 2 ^ 3) (w / 2 ^ 3 % 2 ^ 3) (w % 2 ^ 3))
    else if opcode == 21
    then some (bitmap_transform_a (w / 2 ^ 17 % 2 ^ 1) (w % 2 ^ 17))
    else if opcode == 22
    then some (bitmap_transform_b (w / 2 ^ 17 % 2 ^ 1) (w % 2 ^ 17))
    else if opcode == 23
    then some (bitmap_transform_c (w % 2 ^ 24))
    else if opcode == 24
    then some (bitmap_transform_d (w / 2 ^ 17 % 2 ^ 1) (w % 2 ^ 17))
    else if opcode == 25
    then some (bitmap_transform_e (w / 2 ^ 17 % 2 ^ 1) (w % 2 ^ 17))
    else if opcode == 26
    then some (bitmap_transform_f (w % 2 ^ 24))
    else if opcode == 11
    then some (blend (w / 2 ^ 3 % 2 ^ 3) (w % 2 ^ 3))
    else if opcode == 29
    then some (call (w % 2 ^ 16))
    else if opcode == 6
    then some (cell_number_for_vertex2f (w % 2 ^ 7))
    else if opcode == 38
    then some (clear (w / 2 ^ 2 % 2 ^ 1) (w / 2 ^ 1 % 2 ^ 1) (w % 2 ^ 1))
    else if opcode == 15
    then some (clear_color_a (w % 2 ^ 8))
    else if opcode == 2
    then some (clear_color_rgb (w % 2 ^ 24))
    else if opcode == 17
    then some (clear_stencil (w % 2 ^ 8))
    else if opcode == 18
    then some (clear_tag (w % 2 ^ 8))
    else if opcode == 16
    then some (color_a (w % 2 ^ 8))
    else if opcode == 32
    then some (color_mask (w / 2 ^ 3 % 2 ^ 1) (w / 2 ^ 2 % 2 ^ 1) (w / 2 ^ 1 % 2 ^ 1) (w % 2 ^ 1))
    else if opcode == 4
    then some (color_rgb (w % 2 ^ 24))
    else if opcode == 0
    then some (display)
    else if opcode == 33
    then some (end_graphics_primitive)
    else if opcode == 48
    then some (int_frr)
    else if opcode == 30
    then some (jump (w % 2 ^ 16))
    else if opcode == 14
    then some (line_width (w % 2 ^ 12))
    else if opcode == 37
    then some (macro (w % 2 ^ 1))
    else if opcode == 45
    then some (nop)
    else if opcode == 42
    then some (palette_source (w % 2 ^ 22))
    else if opcode == 13
    then some (point_size (w % 2 ^ 13))
    else if opcode == 35
    then some (restore_context)
    else if opcode == 36
    then some (return_from_call)
    else if opcode == 34
    then some (save_context)
    else if opcode == 28
    then some (scissor_size (w / 2 ^ 12 % 2 ^ 12) (w % 2 ^ 12))
    else if opcode == 27
    then some (scissor_xy (w / 2 ^ 11 % 2 ^ 11) (w % 2 ^ 11))
    else if opcode == 10
    then some (stencil_func (w / 2 ^ 16 % 2 ^ 3) (w / 2 ^ 8 % 2 ^ 8) (w % 2 ^ 8))
    else if opcode == 19
    then some (stencil_mask (w % 2 ^ 8))
    else if opcode == 12
    then some (stencil_op (w / 2 ^ 3 % 2 ^ 3) (w % 2 ^ 3))
    else if opcode == 3
    then some (graphics_object_tag (w % 2 ^ 8))
    else if opcode == 20
    then some (graphics_object_tag_mask (w % 2 ^ 1))
    else if opcode == 39
    then some (vertex_format (w % 2 ^ 3))
    else if opcode == 43
    then some (vertex_translate_x (w % 2 ^ 17))
    else if opcode == 44
    then some (vertex_translate_y (w % 2 ^ 17))
    else none

pub decode : ℕ → Option Command
unfolding by_opcode
decode w =
    if w / 2 ^ 30 == 1
    then some (vertex2_f (w / 2 ^ 15 % 2 ^ 15) (w % 2 ^ 15))
    else if w / 2 ^ 30 == 2
    then some (vertex2_ii (w / 2 ^ 21 % 2 ^ 9) (w / 2 ^ 12 % 2 ^ 9) (w / 2 ^ 7 % 2 ^ 5) (w % 2 ^ 7))
    else by_opcode (w / 2 ^ 24) w
