-- ===== src/Ntp.antt =====
-- Applications/NtpClient: the packet of a request, and the time of the reply, on a little-endian
-- machine. The client of the network is an argument.
pub mod Laws
mod Examples
use abstraction_layer.Prelude.{
  ℕ, ◌+◌, ◌*◌, ◌/◌, ◌%◌, ◌^◌, Bool, Option, none, some, List, [], ◌∷◌, if◌then◌else◌, get_or,
  replicate, sub32,
}
use abstraction_layer.Prelude.Text.{Text, codes}
use Prim.Native.Nat.{bit_or}
use abstraction_layer.Error.{ErrorType, success, not_implemented, is_success}

-- `IpClient`: `connectTo` with the host, the port and the timeout, `disconnect`, `sendBlocking` and
-- `receiveBlocking` with the buffer that is overwritten.
pub record IpClient (W : Type 0) : Type 0 where
  pub connect_to : Text → ℕ → ℕ → W → ErrorType × W
  pub disconnect : W → ErrorType × W
  pub send_blocking : List ℕ → ℕ → W → ErrorType × W
  pub receive_blocking : List ℕ → ℕ → W → ErrorType × List ℕ × W

pub data NtpServerHostName : Type 0 where
  unknown pool_ntp_org google_ntp microsoft_ntp apple_ntp nist_ntp : NtpServerHostName

abbrev pub ntp_server_host_name_to_char_array : NtpServerHostName → ErrorType × Text
ntp_server_host_name_to_char_array pool_ntp_org = (success, codes "pool.ntp.org")
ntp_server_host_name_to_char_array google_ntp = (success, codes "time.google.com")
ntp_server_host_name_to_char_array microsoft_ntp = (success, codes "time.windows.com")
ntp_server_host_name_to_char_array apple_ntp = (success, codes "time.apple.com")
ntp_server_host_name_to_char_array nist_ntp = (success, codes "time.nist.gov")
ntp_server_host_name_to_char_array unknown = (not_implemented, [])

-- `NetworkToHostByteOrder` of a `uint32_t` on a little-endian machine.
unfoldable pub network_to_host_byte_order : ℕ → ℕ
network_to_host_byte_order v =
    v % 2 ^ 8 * 2 ^ 24
    + v / 2 ^ 8 % 2 ^ 8 * 2 ^ 16
    + v / 2 ^ 16 % 2 ^ 8 * 2 ^ 8
    + v / 2 ^ 24 % 2 ^ 8

-- The first byte of the packet.
unfoldable pub first_byte : ℕ → ℕ → ℕ → ℕ
first_byte leap_indicator version mode =
    bit_or (bit_or (leap_indicator * 2 ^ 6) (version * 2 ^ 3)) mode % 2 ^ 8

-- The bytes of a `uint32_t` of the packet; `stray` are those behind the end of a shorter buffer.
abbrev pub word_at : List ℕ → (ℕ → ℕ) → ℕ → ℕ
word_at buffer stray i =
    let byte = λ (j : ℕ). get_or buffer j (stray j) in
    byte i + byte (i + 1) * 2 ^ 8 + byte (i + 2) * 2 ^ 16 + byte (i + 3) * 2 ^ 24

abbrev pub seventy_years_in_seconds : ℕ
seventy_years_in_seconds = 2208988800

module _ {W : Type 0} (ip : IpClient W) where
  unfoldable pub connect_to_server : NtpServerHostName → ℕ → W → ErrorType × W
  connect_to_server hostname port w =
      let (error, name) = ntp_server_host_name_to_char_array hostname in
      let (connect_error, w') = ip.connect_to name port 30000 w in
      (if is_success error then connect_error else error, w')

  unfoldable pub disconnect_client : W → ErrorType × W
  disconnect_client w = ip.disconnect w

  -- `receiveTimestampSeconds` stands at byte 32 of the 48.
  unfoldable pub current_time : (ℕ → ℕ) → ℕ → ℕ → ℕ → ℕ → W → ErrorType × ℕ × W
  current_time stray timeout leap_indicator version mode w =
      let packet = first_byte leap_indicator version mode ∷ replicate 47 0 in
      let (sent, w₁) = ip.send_blocking packet timeout w in
      let (received, buffer, w₂) = ip.receive_blocking packet timeout w₁ in
      let seconds = network_to_host_byte_order (word_at buffer stray 32) in
      if is_success sent
      then (if is_success received
          then (success, sub32 seconds seventy_years_in_seconds, w₂)
          else (received, 0, w₂))
      else (sent, 0, w₁)
