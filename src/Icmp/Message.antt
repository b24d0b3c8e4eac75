-- ===== src/Icmp/Message.antt =====
-- lib/src/protocols/ipv4/icmp.rs: the messages as data.
use narth_network.Base.{ℕ}
use narth_network.Wire.{Bytes}
use narth_network.Ipv4.{Ipv4Header}
use narth_network.Icmp.Codes.{DestinationUnreachableCode, TimeExceededCode, RedirectMessageCode}
use narth_network.Icmp.UnixData.{EchoMessageDataUnix}

-- `ICMP_PAYLOAD_DATAGRAM_PORTION_LENGTH`
abbrev pub datagram_portion_length : ℕ
datagram_portion_length = 8

pub record DestinationUnreachableMessage : Type 0 where
  pub code : DestinationUnreachableCode
  pub ipv4header : Ipv4Header
  pub datagram : Bytes

pub record TimeExceededMessage : Type 0 where
  pub code : TimeExceededCode
  pub payload : Bytes

pub record ParameterProblemMessage : Type 0 where
  pub pointer : ℕ
  pub payload : Bytes

pub record RedirectMessage : Type 0 where
  pub code : RedirectMessageCode
  pub gateway : ℕ
  pub payload : Bytes

pub data EchoMessageData : Type 0 where
  raw : Bytes → EchoMessageData
  unix_like : EchoMessageDataUnix → EchoMessageData

pub record EchoMessage : Type 0 where
  pub identifier : ℕ
  pub sequence_number : ℕ
  pub payload : EchoMessageData

pub data IcmpMessageTypes : Type 0 where
  echo_reply : EchoMessage → IcmpMessageTypes
  destination_unreachable : DestinationUnreachableMessage → IcmpMessageTypes
  source_quench : Bytes → IcmpMessageTypes
  redirect : RedirectMessage → IcmpMessageTypes
  echo_request : EchoMessage → IcmpMessageTypes
  time_exceeded : TimeExceededMessage → IcmpMessageTypes
  parameter_problem : ParameterProblemMessage → IcmpMessageTypes

pub record IcmpMessage : Type 0 where
  pub checksum : ℕ × ℕ
  pub message : IcmpMessageTypes
