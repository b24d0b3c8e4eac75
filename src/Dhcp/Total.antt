-- ===== src/Dhcp/Total.antt =====
-- Reading a DHCP message never panics, and the fuel of its option loop is enough.
use narth_network.Base.{ℕ, ◌<◌, ◌≡◌, Option, some, List, length}
use narth_network.Dhcp.Options.{DhcpOption}
use narth_network.Dhcp.{Found, nothing, padding, tagged}

-- What is left behind a round is shorter.
unfoldable IsShorter : ℕ → Found → Type 0
IsShorter n nothing = Unit
IsShorter n (padding rest) = length rest < n
IsShorter n (tagged code bytes rest) = length rest < n

Returns : Option (List DhcpOption) → Type 0
Returns r = (options : List DhcpOption) × (r ≡ some options)
