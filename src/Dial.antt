-- ===== src/Dial.antt =====
-- How the programs meet at the hub: the URLs of cmd/netso-agent/main.go, cmd/netso/main.go and
-- internal/hubclient/hubclient.go, as the handlers of cmd/netso-hub/main.go read them.
pub mod Arrival
pub mod Served
pub mod Meeting
mod Examples
