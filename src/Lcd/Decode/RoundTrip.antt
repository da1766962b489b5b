-- ===== src/Lcd/Decode/RoundTrip.antt =====
-- Applications/IntegratedCircuits/Lcd/Bridgetek/Bridgetek81xTypes.hpp, `DisplayListCommands`: what the
-- words of the display list are read as.
use abstraction_layer.Prelude.{
  ℕ, ◌/◌, ◌^◌, ◌<◌, ◌≤◌, ◌≡◌, ◌⊎◌, inl, inr, ==_ne, refl, ap, ◌∙◌, arith, some,
}
use abstraction_layer.Lcd.Display
use abstraction_layer.Lcd.Display.{ram_g_end, flash_start, flash_end}
use abstraction_layer.Lcd.Decode.{by_opcode, decode}
use abstraction_layer.Lcd.Commands.{begin_graphics_primitive}

decode-by_opcode :
    (w opcode : ℕ) → w / 2 ^ 24 ≡ opcode → opcode < 64 → decode w ≡ by_opcode opcode w
unfolding decode
decode-by_opcode w opcode e small =
    rw (
      ==_ne (w / 2 ^ 30) 1 (λ h. omega (arith, h)),
      ==_ne (w / 2 ^ 30) 2 (λ h. omega (arith, h)),
      e,
    )

source_word_ram :
    (address : ℕ) → address < ram_g_end → Display.bitmap_source_address address ≡ 0x1F7FFFFF
unfolding Display.bitmap_source_address
source_word_ram address h = ground arith

source_word_flash :
    (address : ℕ)
    → flash_start ≤ address
    → address < flash_end
    → Display.bitmap_source_address address ≡ 0x1FFFFFFF
unfolding Display.bitmap_source_address
source_word_flash address h k = ground arith

-- Whatever the address in the graphics RAM or in the flash memory, the word that is made for the source
-- of a bitmap is the begin of the graphics primitive 15: the opcode and the address are lost.
pub decode-bitmap_source_address :
    (address : ℕ)
    → (address < ram_g_end) ⊎ ((flash_start ≤ address) × (address < flash_end))
    → decode (Display.bitmap_source_address address) ≡ some (begin_graphics_primitive 15)
unfolding by_opcode
decode-bitmap_source_address address (inl h) =
    ap decode (source_word_ram address h) ∙ decode-by_opcode 0x1F7FFFFF 31 refl (omega arith)
decode-bitmap_source_address address (inr (h, k)) =
    ap decode (source_word_flash address h k) ∙ decode-by_opcode 0x1FFFFFFF 31 refl (omega arith)
