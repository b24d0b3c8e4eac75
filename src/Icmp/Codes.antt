-- ===== src/Icmp/Codes.antt =====
-- lib/src/protocols/ipv4/icmp.rs: the codes of the error messages.
use narth_network.Base.{ℕ, ◌≡◌, refl, ◌≢◌, arith, ◌==◌, if◌then◌else◌, Io, invalid_input, ok, err}

pub data DestinationUnreachableCode : Type 0 where
  net_unreachable host_unreachable protocol_unreachable : DestinationUnreachableCode
  port_unreachable fragmentation_needed source_route_failed : DestinationUnreachableCode

pub unreachable_code_from : ℕ → Io DestinationUnreachableCode
unreachable_code_from value =
    if value == 0
    then ok net_unreachable
    else if value == 1
    then ok host_unreachable
    else if value == 2
    then ok protocol_unreachable
    else if value == 3
    then ok port_unreachable
    else if value == 4
    then ok fragmentation_needed
    else if value == 5
    then ok source_route_failed
    else err invalid_input

pub u8_of_unreachable_code : DestinationUnreachableCode → ℕ
u8_of_unreachable_code net_unreachable = 0
u8_of_unreachable_code host_unreachable = 1
u8_of_unreachable_code protocol_unreachable = 2
u8_of_unreachable_code port_unreachable = 3
u8_of_unreachable_code fragmentation_needed = 4
u8_of_unreachable_code source_route_failed = 5

pub data TimeExceededCode : Type 0 where
  time_to_live_exceeded_in_transit fragment_reassembly_time_exceeded : TimeExceededCode

pub time_exceeded_code_from : ℕ → Io TimeExceededCode
time_exceeded_code_from value =
    if value == 0
    then ok time_to_live_exceeded_in_transit
    else if value == 1
    then ok fragment_reassembly_time_exceeded
    else err invalid_input

pub u8_of_time_exceeded_code : TimeExceededCode → ℕ
u8_of_time_exceeded_code time_to_live_exceeded_in_transit = 0
u8_of_time_exceeded_code fragment_reassembly_time_exceeded = 1

pub data RedirectMessageCode : Type 0 where
  to_network to_host to_service_and_network to_service_and_host : RedirectMessageCode

pub redirect_code_from : ℕ → Io RedirectMessageCode
redirect_code_from value =
    if value == 0
    then ok to_network
    else if value == 1
    then ok to_host
    else if value == 2
    then ok to_service_and_network
    else if value == 3
    then ok to_service_and_host
    else err invalid_input

pub u8_of_redirect_code : RedirectMessageCode → ℕ
u8_of_redirect_code to_network = 0
u8_of_redirect_code to_host = 1
u8_of_redirect_code to_service_and_network = 2
u8_of_redirect_code to_service_and_host = 4

-- Each code of an unreachable destination, of an exceeded time and of a redirect is read back from
-- its number, except the redirect code for service and host, whose number is refused.
pub codes_round_trip :
    (u : DestinationUnreachableCode) (t : TimeExceededCode) (r : RedirectMessageCode)
    → (unreachable_code_from (u8_of_unreachable_code u) ≡ ok u)
      × (time_exceeded_code_from (u8_of_time_exceeded_code t) ≡ ok t)
      × ((r ≢ to_service_and_host) → redirect_code_from (u8_of_redirect_code r) ≡ ok r)
      × (redirect_code_from (u8_of_redirect_code to_service_and_host) ≡ err invalid_input)
unfolding unreachable_code_from u8_of_unreachable_code time_exceeded_code_from
    u8_of_time_exceeded_code redirect_code_from u8_of_redirect_code
codes_round_trip u t r = (ground arith, ground arith, λ ne. ground arith, refl)
