-- ===== src/Ntp/Examples.antt =====
-- Applications/NtpClient: a server that answers with one time, in a state that counts the calls.
use abstraction_layer.Prelude.{
  ℕ, suc, ◌+◌, ◌%◌, ◌/◌, ◌^◌, ◌≡◌, ◌++◌, refl, arith, List, replicate, u32,
}
use abstraction_layer.Error.{success, not_implemented}
use abstraction_layer.Ntp.{
  IpClient, unknown, connect_to_server, first_byte, current_time, seventy_years_in_seconds,
}
use abstraction_layer.Ntp.Laws.{network_bytes, first_byte_fields, current_time-network_bytes}

abbrev reply : ℕ → List ℕ
reply unix =
    replicate 32 0 ++ (network_bytes ((unix + seventy_years_in_seconds) % u32) ++ replicate 12 0)

abbrev server : IpClient ℕ
server = record {
  connect_to = λ host port timeout w. (success, suc w);
  disconnect = λ w. (success, w);
  send_blocking = λ bytes timeout w. (success, suc w);
  receive_blocking = λ bytes timeout w. (success, reply 4000000000, suc w);
}

first_byte_fields_test :
    (first_byte 0 3 3 / 2 ^ 6 ≡ 0)
    × (first_byte 0 3 3 / 2 ^ 3 % 2 ^ 3 ≡ 3)
    × (first_byte 0 3 3 % 2 ^ 3 ≡ 3)
first_byte_fields_test = first_byte_fields 0 3 3 (omega arith) (omega arith) (omega arith)

-- A time of the year 2096, whose NTP time has wrapped.
current_time-network_bytes_example :
    current_time server (λ i. 255) 1000 0 3 3 0 ≡ (success, 4000000000, suc (suc 0))
current_time-network_bytes_example =
    current_time-network_bytes server (λ i. 255) 1000 0 3 3 4000000000 (replicate 32 0)
      (replicate 12 0) 0 (suc 0) (suc (suc 0)) (omega arith) refl refl refl

-- With an unknown server a connection to an empty host is made, and NotImplemented returned.
connects_test : connect_to_server server unknown 123 0 ≡ (not_implemented, 1)
unfolding connect_to_server
connects_test = refl
