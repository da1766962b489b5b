-- ===== src/Lcd/Display.antt =====
-- Applications/IntegratedCircuits/Lcd/Bridgetek/Bridgetek81xTypes.hpp, `DisplayListCommands`: the words
-- of the display list. An enumeration is given by its number, and a signed coordinate by its 32 bits.
-- Since the fields of a word lie side by side, `|` is a sum, and a mask with the lowest bits a remainder.
use abstraction_layer.Prelude.{ℕ, ◌+◌, ◌-◌, ◌*◌, ◌/◌, ◌%◌, ◌^◌, ◌&&◌, leb, ltb, if◌then◌else◌, u32}

unfoldable pub alpha_test_function : ℕ → ℕ → ℕ
alpha_test_function function reference_value =
    9 * 2 ^ 24 + function % 2 ^ 3 * 2 ^ 8 + reference_value % 2 ^ 8

unfoldable pub begin_graphics_primitive : ℕ → ℕ
begin_graphics_primitive primitive = 31 * 2 ^ 24 + primitive % 2 ^ 4

unfoldable pub bitmap_extended_format : ℕ → ℕ
bitmap_extended_format format = 46 * 2 ^ 24 + format % 2 ^ 16

unfoldable pub bitmap_handle : ℕ → ℕ
bitmap_handle handle = 5 * 2 ^ 24 + handle % 2 ^ 5

unfoldable pub bitmap_layout : ℕ → ℕ → ℕ → ℕ
bitmap_layout format line_stride height =
    7 * 2 ^ 24 + format % 2 ^ 5 * 2 ^ 19 + line_stride % 2 ^ 10 * 2 ^ 9 + height % 2 ^ 9

unfoldable pub bitmap_linestride_and_height : ℕ → ℕ → ℕ
bitmap_linestride_and_height line_stride height =
    40 * 2 ^ 24 + line_stride % 2 ^ 2 * 2 ^ 2 + height % 2 ^ 2

unfoldable pub bitmap_size : ℕ → ℕ → ℕ → ℕ → ℕ → ℕ
bitmap_size filter wrap_x wrap_y width height =
    8 * 2 ^ 24
    + filter % 2 ^ 1 * 2 ^ 20
    + wrap_x % 2 ^ 1 * 2 ^ 19
    + wrap_y % 2 ^ 1 * 2 ^ 18
    + width % 2 ^ 9 * 2 ^ 9
    + height % 2 ^ 9

unfoldable pub bitmap_extended_width_and_height : ℕ → ℕ → ℕ
bitmap_extended_width_and_height width height = 41 * 2 ^ 24 + width % 2 ^ 2 * 2 ^ 2 + height % 2 ^ 2

unfoldable pub bitmap_swizzle : ℕ → ℕ → ℕ → ℕ → ℕ
bitmap_swizzle red green blue alpha =
    47 * 2 ^ 24 + red % 2 ^ 3 * 2 ^ 9 + green % 2 ^ 3 * 2 ^ 6 + blue % 2 ^ 3 * 2 ^ 3 + alpha % 2 ^ 3

unfoldable pub bitmap_transform_a : ℕ → ℕ → ℕ
bitmap_transform_a precision component =
    21 * 2 ^ 24 + precision % 2 ^ 1 * 2 ^ 17 + component % 2 ^ 17

unfoldable pub bitmap_transform_b : ℕ → ℕ → ℕ
bitmap_transform_b precision component =
    22 * 2 ^ 24 + precision % 2 ^ 1 * 2 ^ 17 + component % 2 ^ 17

unfoldable pub bitmap_transform_c : ℕ → ℕ
bitmap_transform_c component = 23 * 2 ^ 24 + component % 2 ^ 24

unfoldable pub bitmap_transform_d : ℕ → ℕ → ℕ
bitmap_transform_d precision component =
    24 * 2 ^ 24 + precision % 2 ^ 1 * 2 ^ 17 + component % 2 ^ 17

unfoldable pub bitmap_transform_e : ℕ → ℕ → ℕ
bitmap_transform_e precision component =
    25 * 2 ^ 24 + precision % 2 ^ 1 * 2 ^ 17 + component % 2 ^ 17

unfoldable pub bitmap_transform_f : ℕ → ℕ
bitmap_transform_f component = 26 * 2 ^ 24 + component % 2 ^ 24

unfoldable pub blend : ℕ → ℕ → ℕ
blend source_blending_factor destination_blending_factor =
    11 * 2 ^ 24 + source_blending_factor % 2 ^ 3 * 2 ^ 3 + destination_blending_factor % 2 ^ 3

unfoldable pub call : ℕ → ℕ
call dest = 29 * 2 ^ 24 + dest % 2 ^ 16

unfoldable pub cell_number_for_vertex2f : ℕ → ℕ
cell_number_for_vertex2f cell = 6 * 2 ^ 24 + cell % 2 ^ 7

unfoldable pub clear : ℕ → ℕ → ℕ → ℕ
clear clear_colour_buffer clear_stencil_buffer clear_tag_buffer =
    38 * 2 ^ 24
    + clear_colour_buffer % 2 ^ 1 * 2 ^ 2
    + clear_stencil_buffer % 2 ^ 1 * 2 ^ 1
    + clear_tag_buffer % 2 ^ 1

unfoldable pub clear_color_a : ℕ → ℕ
clear_color_a alpha = 15 * 2 ^ 24 + alpha % 2 ^ 8

unfoldable pub clear_color_rgb : ℕ → ℕ
clear_color_rgb colour = 2 * 2 ^ 24 + colour % 2 ^ 24

unfoldable pub clear_stencil : ℕ → ℕ
clear_stencil s = 17 * 2 ^ 24 + s % 2 ^ 8

unfoldable pub clear_tag : ℕ → ℕ
clear_tag s = 18 * 2 ^ 24 + s % 2 ^ 8

unfoldable pub color_a : ℕ → ℕ
color_a alpha = 16 * 2 ^ 24 + alpha % 2 ^ 8

unfoldable pub color_mask : ℕ → ℕ → ℕ → ℕ → ℕ
color_mask r g b a =
    32 * 2 ^ 24 + r % 2 ^ 1 * 2 ^ 3 + g % 2 ^ 1 * 2 ^ 2 + b % 2 ^ 1 * 2 ^ 1 + a % 2 ^ 1

unfoldable pub color_rgb : ℕ → ℕ
color_rgb colour = 4 * 2 ^ 24 + colour % 2 ^ 24

unfoldable pub display : ℕ
display = 0

unfoldable pub end_graphics_primitive : ℕ
end_graphics_primitive = 33 * 2 ^ 24

unfoldable pub int_frr : ℕ
int_frr = 48 * 2 ^ 24

unfoldable pub jump : ℕ → ℕ
jump dest = 30 * 2 ^ 24 + dest % 2 ^ 16

unfoldable pub line_width : ℕ → ℕ
line_width width = 14 * 2 ^ 24 + width % 2 ^ 12

unfoldable pub macro : ℕ → ℕ
macro m = 37 * 2 ^ 24 + m % 2 ^ 1

unfoldable pub nop : ℕ
nop = 45 * 2 ^ 24

unfoldable pub palette_source : ℕ → ℕ
palette_source addr = 42 * 2 ^ 24 + addr % 2 ^ 22

unfoldable pub point_size : ℕ → ℕ
point_size size = 13 * 2 ^ 24 + size % 2 ^ 13

unfoldable pub restore_context : ℕ
restore_context = 35 * 2 ^ 24

unfoldable pub return_from_call : ℕ
return_from_call = 36 * 2 ^ 24

unfoldable pub save_context : ℕ
save_context = 34 * 2 ^ 24

unfoldable pub scissor_size : ℕ → ℕ → ℕ
scissor_size width height = 28 * 2 ^ 24 + width % 2 ^ 12 * 2 ^ 12 + height % 2 ^ 12

unfoldable pub scissor_xy : ℕ → ℕ → ℕ
scissor_xy x y = 27 * 2 ^ 24 + x % 2 ^ 11 * 2 ^ 11 + y % 2 ^ 11

unfoldable pub stencil_func : ℕ → ℕ → ℕ → ℕ
stencil_func func ref mask =
    10 * 2 ^ 24 + func % 2 ^ 3 * 2 ^ 16 + ref % 2 ^ 8 * 2 ^ 8 + mask % 2 ^ 8

unfoldable pub stencil_mask : ℕ → ℕ
stencil_mask mask = 19 * 2 ^ 24 + mask % 2 ^ 8

unfoldable pub stencil_op : ℕ → ℕ → ℕ
stencil_op s_fail s_pass = 12 * 2 ^ 24 + s_fail % 2 ^ 3 * 2 ^ 3 + s_pass % 2 ^ 3

unfoldable pub graphics_object_tag : ℕ → ℕ
graphics_object_tag s = 3 * 2 ^ 24 + s % 2 ^ 8

unfoldable pub graphics_object_tag_mask : ℕ → ℕ
graphics_object_tag_mask mask = 20 * 2 ^ 24 + mask % 2 ^ 1

unfoldable pub vertex2_f : ℕ → ℕ → ℕ
vertex2_f x y = 1 * 2 ^ 30 + x % 2 ^ 15 * 2 ^ 15 + y % 2 ^ 15

unfoldable pub vertex2_ii : ℕ → ℕ → ℕ → ℕ → ℕ
vertex2_ii x y handle cell =
    2 * 2 ^ 30 + x % 2 ^ 9 * 2 ^ 21 + y % 2 ^ 9 * 2 ^ 12 + handle % 2 ^ 5 * 2 ^ 7 + cell % 2 ^ 7

unfoldable pub vertex_format : ℕ → ℕ
vertex_format frac = 39 * 2 ^ 24 + frac % 2 ^ 3

unfoldable pub vertex_translate_x : ℕ → ℕ
vertex_translate_x x = 43 * 2 ^ 24 + x % 2 ^ 17

unfoldable pub vertex_translate_y : ℕ → ℕ
vertex_translate_y y = 44 * 2 ^ 24 + y % 2 ^ 17

-- The start and the end of the graphics RAM and of the flash memory.
abbrev pub ram_g_end : ℕ
ram_g_end = 1024 * 1024

abbrev pub flash_start : ℕ
flash_start = 0x800000

abbrev pub flash_end : ℕ
flash_end = 0x800000 + 256 * 1024 * 1024

-- `0x1FFFFFFF | v`, with the higher bits of `v`, and the bit 23 cleared and set.
abbrev pub set_top_bits : ℕ → ℕ
set_top_bits v = v / 2 ^ 29 * 2 ^ 29 + (2 ^ 29 - 1)

abbrev pub clear_bit_23 : ℕ → ℕ
clear_bit_23 v = v - v / 2 ^ 23 % 2 * 2 ^ 23

abbrev pub set_bit_23 : ℕ → ℕ
set_bit_23 v = v + (1 - v / 2 ^ 23 % 2) * 2 ^ 23

unfoldable pub bitmap_source_address : ℕ → ℕ
bitmap_source_address address =
    if ltb address ram_g_end
    then clear_bit_23 (set_top_bits (address % 2 ^ 27))
    else if leb flash_start address && ltb address flash_end
    then set_bit_23 (set_top_bits (address * 32 % u32 % 2 ^ 27))
    else 0
