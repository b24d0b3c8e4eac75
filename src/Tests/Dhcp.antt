-- ===== src/Tests/Dhcp.antt =====
-- DHCP messages at concrete inputs.
use narth_network.Base.{ℕ, zero, suc, ◌≡◌, refl, List, [], ◌∷◌, ◌++◌, arith, ok}
use narth_network.Wire.{Bytes}
use narth_network.Dhcp.{options_of}
use narth_network.Dhcp.Options.{parse_option, ack, subnet_mask, router_option, dhcp_message_type}
use narth_network.Dhcp.Encoded.{
  Entry, IsTag, IsTagged, encode, parsed, options_of-encode, options_of-unterminated, pad, option,
}

-- An acknowledgement with a mask, in front of the end.
abbrev ack_options : List Entry
ack_options = option 53 (5 ∷ []) ∷ pad ∷ option 1 (255 ∷ 255 ∷ 255 ∷ 0 ∷ []) ∷ []

ack_options-parsed : parsed ack_options ≡ dhcp_message_type ack ∷ subnet_mask 0xffffff00 ∷ []
unfolding parsed parse_option
ack_options-parsed = refl

ack_options-IsTagged : IsTagged ack_options
unfolding IsTagged IsTag
ack_options-IsTagged = ((omega arith, omega arith), ((omega arith, omega arith), tt))

options_of-encode_example :
    options_of (encode ack_options ++ 255 ∷ 7 ∷ []) ≡ ok (parsed ack_options)
options_of-encode_example = options_of-encode ack_options (7 ∷ []) ack_options-IsTagged

options_of-unterminated_example :
    options_of (encode ack_options ++ 3 ∷ 4 ∷ 10 ∷ 0 ∷ 0 ∷ 1 ∷ []) ≡ ok (parsed ack_options)
unfolding IsTag
options_of-unterminated_example =
    options_of-unterminated ack_options 3 (10 ∷ 0 ∷ 0 ∷ 1 ∷ []) ack_options-IsTagged
      (omega arith, omega arith)

-- What that option is parsed as where bytes stand behind it.
gateway-parsed : parsed (option 3 (10 ∷ 0 ∷ 0 ∷ 1 ∷ []) ∷ []) ≡ router_option (0x0a000001 ∷ []) ∷ []
unfolding parsed parse_option
gateway-parsed = refl

abbrev zero_bytes : ℕ → Bytes
zero_bytes zero = []
zero_bytes (suc n) = 0 ∷ zero_bytes n

-- A reply without texts.
abbrev offer_message : Bytes
offer_message =
    2
    ∷ 1
    ∷ 6
    ∷ 0
    ∷ (zero_bytes 232 ++ (0x63 ∷ 0x82 ∷ 0x53 ∷ 0x63 ∷ (encode ack_options ++ (255 ∷ []))))
