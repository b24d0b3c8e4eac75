-- ===== src/Interface/Ping/Sequence.antt =====
-- Sequence numbers of pings: 16 bits on the wire, 64 bits for the session.
use narth_network.Base.{ℕ, ◌+◌, ◌%◌, ◌^◌, ◌≤◌, ◌<◌, ◌≡◌, arith}
use narth_network.Interface.Ping.{unwrap_sequence}

-- Of a session that has sent so many pings, `unwrap_sequence` gives back the whole number of a
-- ping, if both are below 2 ^ 64, from the lowest 16 bits of that number, for each of the 32768
-- pings before the next one and the 32767 after.
pub unwrap_sequence-truncated :
    (n sent_count : ℕ)
    → n < 2 ^ 64
    → sent_count < 2 ^ 64
    → sent_count ≤ n + 32768
    → n ≤ sent_count + 32767
    → unwrap_sequence (n % 65536) sent_count ≡ n
unfolding unwrap_sequence
unwrap_sequence-truncated n sent_count hn hs back front = ground arith
